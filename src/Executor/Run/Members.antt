-- ===== src/Executor/Run/Members.antt =====
-- A property that all nodes of a level have, through the tasks of src/executor.rs.
use ansible_playbooks.Common.{
  ℕ, ◌≡◌, refl, ap, inl, inr, Option, none, some, List, [], ◌∷◌, ◌++◌, map, get_elem?, All,
  All-append, Bool-cases, Option-cases, String, zero, suc, true, sym, ◌∙◌, arith,
}
use ansible_playbooks.Env.{Env}
use ansible_playbooks.Resource.{Trait, Batcher, evaluate}
use ansible_playbooks.Resource.Ids.{
  BatchFamily, changed_skipped, apt_package, absent_apt_package, apt_repo, systemctl_enable, sysctl,
  kernel_module,
}
use ansible_playbooks.Plan.{Node, Plan}
use ansible_playbooks.Executor.Report.{ResourceOutcome}
use ansible_playbooks.Executor.Run.{
  same_family, family_index, push_group, partition, Groups, outcome, Task, batch, single,
  batcher_of, group_tasks, tasks, select,
}

abbrev of_index : ℕ → BatchFamily
of_index zero = apt_package
of_index (suc zero) = absent_apt_package
of_index (suc (suc zero)) = apt_repo
of_index (suc (suc (suc zero))) = systemctl_enable
of_index (suc (suc (suc (suc zero)))) = sysctl
of_index _ = kernel_module

of_index-family_index : (f : BatchFamily) → of_index (family_index f) ≡ f
of_index-family_index apt_package = refl
of_index-family_index absent_apt_package = refl
of_index-family_index apt_repo = refl
of_index-family_index systemctl_enable = refl
of_index-family_index sysctl = refl
of_index-family_index kernel_module = refl

same_family-eq : (key family : Option BatchFamily) → same_family key family ≡ true → family ≡ key
same_family-eq none none same = refl
same_family-eq none (some g) same = cc
same_family-eq (some f) none same = cc
same_family-eq (some f) (some g) same =
    let one : family_index g ≡ family_index f = ground (arith, same) in
    ap some (sym (of_index-family_index g) ∙ ap of_index one ∙ of_index-family_index f)

module _ {S : Type 0} (T : Trait S) (batchers : BatchFamily → Option (Batcher S T.Resource))
    (P : Node T.Resource → Type 0) where
  -- Nodes of one batch family that have the property.
  abbrev pub MemberHas : Option BatchFamily → Node T.Resource → Type 0
  MemberHas family node = P node × (T.batch_family node.resource ≡ family)

  abbrev GroupHas : Option BatchFamily × List (Node T.Resource) → Type 0
  GroupHas (family, members) = All (MemberHas family) members

  abbrev pub TaskHas : Task T batchers → Type 0
  TaskHas (single node) = P node
  TaskHas (batch b nodes) =
      (family : BatchFamily) × (batchers family ≡ some b) × All (MemberHas (some family)) nodes

  push_group-Has :
      (family : Option BatchFamily) (node : Node T.Resource) (groups : Groups T batchers)
      → P node
      → T.batch_family node.resource ≡ family
      → All GroupHas groups
      → All GroupHas (push_group T batchers family node groups)
  unfolding push_group
  push_group-Has family node [] p e h = (((p, e), tt), tt)
  push_group-Has family node ((key, members) ∷ groups) p e h =
      elim (Bool-cases (same_family key family)) [
        | inl same ↦ rw same (
          All-append (MemberHas key) members (node ∷ []) h.0
              ((p, e ∙ same_family-eq key family same), tt),
          h.1,
        )
        | inr other ↦ rw other (h.0, push_group-Has family node groups p e h.1)
      ]

  pub partition-Has :
      (env : Env) (nodes : List (Node T.Resource)) (skipped : List ResourceOutcome)
      (groups : Groups T batchers)
      → All P nodes
      → All GroupHas groups
      → All GroupHas (partition T batchers env nodes skipped groups).1
  unfolding partition
  partition-Has env [] skipped groups p h = h
  partition-Has env (node ∷ nodes) skipped groups p h =
      elim (Bool-cases (evaluate (T.skip_when node.resource) env)) [
        | inl skips ↦
            rw (skips, partition)
              (partition-Has env nodes (skipped ++ (outcome T batchers node changed_skipped ∷ []))
                groups p.1 h)
        | inr runs ↦
            rw (runs, partition)
              (partition-Has env nodes skipped
                (push_group T batchers (T.batch_family node.resource) node groups) p.1
                (push_group-Has _ node groups p.0 refl h))
      ]

  singles-Has :
      (family : Option BatchFamily) (members : List (Node T.Resource))
      → All (MemberHas family) members
      → All TaskHas (map single members)
  singles-Has family [] h = tt
  singles-Has family (node ∷ members) h = (h.0.0, singles-Has family members h.1)

  group_tasks-Has :
      (family : Option BatchFamily) (b : Option (Batcher S T.Resource))
      (members : List (Node T.Resource))
      → batcher_of T batchers family ≡ b
      → All (MemberHas family) members
      → All TaskHas (group_tasks T batchers b members)
  group_tasks-Has none (some b) members e h = cc
  group_tasks-Has (some family) (some b) members e h = ((family, e, h), tt)
  group_tasks-Has family none members e h = singles-Has family members h

  pub tasks-Has :
      (groups : Groups T batchers) → All GroupHas groups → All TaskHas (tasks T batchers groups)
  unfolding tasks
  tasks-Has [] h = tt
  tasks-Has ((family, members) ∷ groups) h =
      let b = batcher_of T batchers family in
      All-append TaskHas (group_tasks T batchers b members) (tasks T batchers groups)
        (group_tasks-Has family b members refl h.0) (tasks-Has groups h.1)

  pub select-Has :
      (show : ℕ → String) (plan : Plan T.Resource)
      → ((i : ℕ) (node : Node T.Resource) → get_elem? plan i ≡ some node → P node)
      → (level : List ℕ) → All P (select T batchers show plan level)
  unfolding select
  select-Has show plan all [] = tt
  select-Has show plan all (i ∷ is) = elim (Option-cases (get_elem? plan i)) [
    | inr (node, found) ↦ rw (found, select) (all i node found, select-Has show plan all is)
    | inl missing ↦ rw (missing, select) (select-Has show plan all is)
  ]
