-- ===== src/Backends/Accounts/Lookups.antt =====
-- The numbers that `lookup_uid` and `lookup_gid` read from the lines that getent prints.
use ansible_playbooks.Common.{ℕ, ◌<◌, ◌^◌, ◌≡◌, refl, ap, ◌∙◌, String, ◌<>◌, true, [], ◌∷◌, ◌==◌}
use ansible_playbooks.Common.Results.{ok}
use ansible_playbooks.Common.Text.{decimal, split_by}
use ansible_playbooks.Common.Text.Decimal.{Lacks, split_by-colon, decimal-Lacks, parse_u32-decimal}
use ansible_playbooks.Host.{Host, Output, command}
use ansible_playbooks.Backends.Accounts.{lookup_uid, lookup_gid}

-- The text has no colon.
abbrev pub IsField : String → Type 0
IsField s = Lacks (λ c. c == 58) s

-- A line of getent, with the fields in front of the number and what comes behind it.
abbrev pub entry : (name secret : String) → ℕ → (rest : String) → String
entry name secret number rest =
    name <> (":" <> (secret <> (":" <> (decimal number <> (":" <> rest)))))

split-entry :
    (name secret rest : String) (number : ℕ)
    → IsField name
    → IsField secret
    → split_by (λ c. c == 58) (entry name secret number rest)
      ≡ name ∷ secret ∷ decimal number ∷ split_by (λ c. c == 58) rest
split-entry name secret rest number is_name is_secret =
    split_by-colon name (secret <> (":" <> (decimal number <> (":" <> rest)))) is_name
    ∙ ap (λ fields. name ∷ fields)
        (split_by-colon secret (decimal number <> (":" <> rest)) is_secret
          ∙ ap (λ fields. secret ∷ fields)
              (split_by-colon (decimal number) rest (decimal-Lacks 58 refl number)))

module _ (H : Host) (backend account : String) (s : H.State) (name secret rest : String)
    (number : ℕ) (is_name : IsField name) (is_secret : IsField secret)
    (small : number < 2 ^ 32) where
  -- If getent succeeds and prints an entry, with no colon in its first two fields and a number
  -- below 2³² behind them, `lookup_uid` returns this number.
  pub lookup_uid-entry :
      (output : Output)
      → (H.spawn (command ("getent" ∷ "passwd" ∷ account ∷ [])) s).0 ≡ ok output
      → output.success ≡ true
      → output.stdout ≡ entry name secret number rest
      → (lookup_uid H backend account s).0 ≡ ok number
  unfolding lookup_uid
  lookup_uid-entry output spawned succeeded printed =
      let read = split-entry name secret rest number is_name is_secret in
      rw (spawned, succeeded, printed, read, parse_u32-decimal number small) refl

  -- If getent succeeds and prints an entry, with no colon in its first two fields and a number
  -- below 2³² behind them, `lookup_gid` returns this number.
  pub lookup_gid-entry :
      (output : Output)
      → (H.spawn (command ("getent" ∷ "group" ∷ account ∷ [])) s).0 ≡ ok output
      → output.success ≡ true
      → output.stdout ≡ entry name secret number rest
      → (lookup_gid H backend account s).0 ≡ ok number
  unfolding lookup_gid
  lookup_gid-entry output spawned succeeded printed =
      let read = split-entry name secret rest number is_name is_secret in
      rw (spawned, succeeded, printed, read, parse_u32-decimal number small) refl
