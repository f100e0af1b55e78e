-- ===== src/Executor/Report.antt =====
-- `Report` and `ResourceOutcome` in src/executor.rs.
use ansible_playbooks.Common.{ℕ, String, Bool, true, false, List, length, filterb}
use ansible_playbooks.Resource.Ids.{ResourceId, Changed, changed_yes, changed_no, changed_skipped}

pub record ResourceOutcome : Type 0 where
  pub id : ResourceId
  pub id_hint : String
  pub changed : Changed

pub record Report : Type 0 where
  pub outcomes : List ResourceOutcome

-- `==` on `Changed`
abbrev pub same_changed : Changed → Changed → Bool
same_changed changed_yes changed_yes = true
same_changed changed_no changed_no = true
same_changed changed_skipped changed_skipped = true
same_changed _ _ = false

unfoldable pub report_count : Report → Changed → ℕ
report_count report kind = length (filterb (λ o. same_changed o.changed kind) report.outcomes)
