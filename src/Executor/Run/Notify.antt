-- ===== src/Executor/Run/Notify.antt =====
-- The run state: which resources have changed, as later levels read it.
use ansible_playbooks.Common.{
  ℕ, ◌≡◌, refl, ◌∙◌, ap, String, Bool, true, ◌&&◌, ◌||◌, Option, List, [], ◌∷◌, ◌++◌, arith, any,
  fun_ext, inl, inr, suc, Bool-cases,
}
use ansible_playbooks.Common.{◌==◌, if◌then◌else◌}
use ansible_playbooks.Common.Results.{ok, >>=-eq-ok}
use ansible_playbooks.Env.{Env, contains_id, record_changed, any_changed, is_dry_run}
use ansible_playbooks.Resource.{Trait, Batcher}
use ansible_playbooks.Resource.Ids.{BatchFamily, ResourceId, changed_yes}
use ansible_playbooks.Plan.{Plan}
use ansible_playbooks.Executor.Report.{ResourceOutcome, same_changed}
use ansible_playbooks.Executor.Run.{run_level, select, record_all, run_levels}

-- Some outcome of the list says that `id` changed.
abbrev pub changed_in : List ResourceOutcome → ResourceId → Bool
changed_in outs id = any (λ o. same_changed o.changed changed_yes && o.id == id) outs

pub any-append {ℓ} :
    {A : Type ℓ} (p : A → Bool) (xs ys : List A) → any p (xs ++ ys) ≡ (any p xs || any p ys)
any-append p [] ys = refl
any-append p (x ∷ xs) ys = ground (arith, any-append p xs ys)

contains-record_changed :
    (env : Env) (id j : ResourceId)
    → contains_id (record_changed env id).run_state j ≡ (contains_id env.run_state j || id == j)
unfolding record_changed
contains-record_changed env id j = elim (Bool-cases (contains_id env.run_state id)) [
  | inl old ↦ rw old (elim (Bool-cases (id == j)) [
    | inl same ↦
        let e : id ≡ j = ground arith in
        let here : contains_id env.run_state j ≡ true = rw e at old in ground (arith, here)
    | inr other ↦ ground arith
  ])
  | inr new ↦ rw new (ground arith)
]

module _ {S : Type 0} (T : Trait S) (batchers : BatchFamily → Option (Batcher S T.Resource))
    (show : ℕ → String) where
  contains-record_all :
      (env : Env) (outs : List ResourceOutcome) (j : ResourceId)
      → contains_id (record_all T batchers show env outs).run_state j
        ≡ (contains_id env.run_state j || changed_in outs j)
  unfolding record_all
  contains-record_all env [] j = ground arith
  contains-record_all env (o ∷ outs) j = elim (Bool-cases (same_changed o.changed changed_yes)) [
    | inl yes' ↦
        rw (yes', record_all)
          (ground (
            arith,
            contains-record_all (record_changed env o.id) outs j,
            contains-record_changed env o.id j,
            yes',
          ))
    | inr other ↦ rw (other, record_all) (ground (arith, contains-record_all env outs j, other))
  ]

  run_mode-record_all :
      (env : Env) (outs : List ResourceOutcome)
      → (record_all T batchers show env outs).run_mode ≡ env.run_mode
  unfolding record_all record_changed
  run_mode-record_all env [] = refl
  run_mode-record_all env (o ∷ outs) =
      run_mode-record_all
        (if same_changed o.changed changed_yes then record_changed env o.id else env) outs
      ∙ ground arith

  -- A dry run stays one while the run state grows.
  pub is_dry_run-record_all :
      (env : Env) (outs : List ResourceOutcome)
      → is_dry_run (record_all T batchers show env outs) ≡ is_dry_run env
  unfolding is_dry_run
  is_dry_run-record_all env outs = rw run_mode-record_all

  module _ (plan : Plan T.Resource) where
    contains-run_levels :
        (schedule : ℕ → ℕ → ℕ) (levels : List (List ℕ)) (env env' : Env)
        (outs outs' : List ResourceOutcome) (s s' : S)
        → ((j : ResourceId) → contains_id env.run_state j ≡ changed_in outs j)
        → run_levels T batchers show plan schedule levels env outs s ≡ (ok (outs', env'), s')
        → (j : ResourceId) → contains_id env'.run_state j ≡ changed_in outs' j
    unfolding run_levels
    contains-run_levels schedule [] env env' outs outs' s s' known e = λ j.
        let same_outs : outs ≡ outs' = ground arith in
        let same_env : env ≡ env' = ground arith in rw (← same_outs, ← same_env) (known j)
    contains-run_levels schedule (level ∷ levels) env env' outs outs' s s' known e =
        let nodes = select T batchers show plan level in
        let later : ℕ → ℕ → ℕ = λ k. schedule (suc k) in
        let (new, ran, rest) =
          >>=-eq-ok (run_level T batchers show (schedule 0) nodes env)
            (λ new.
              run_levels T batchers show plan later levels (record_all T batchers show env new)
                (outs ++ new))
            s s' e in
        contains-run_levels later levels (record_all T batchers show env new) env' (outs ++ new)
          outs' (run_level T batchers show (schedule 0) nodes env s).1 s'
          (λ j. ground (
            arith,
            contains-record_all env new j,
            known j,
            any-append (λ (o : ResourceOutcome). same_changed o.changed changed_yes && o.id == j)
                outs new,
          ))
          rest

    -- After any number of levels, from an `Env` that has recorded nothing, `any_changed` answers, for every list of watched resources,
    -- whether an outcome so far says that one of them changed.
    pub any_changed-run_levels :
        (schedule : ℕ → ℕ → ℕ) (levels : List (List ℕ)) (env env' : Env)
        (outs : List ResourceOutcome) (s s' : S) (watched : List ResourceId)
        → env.run_state ≡ []
        → run_levels T batchers show plan schedule levels env [] s ≡ (ok (outs, env'), s')
        → any_changed env' watched ≡ any (changed_in outs) watched
    unfolding any_changed
    any_changed-run_levels schedule levels env env' outs s s' watched fresh e =
        ap (λ p. any p watched)
          (fun_ext (contains-run_levels schedule levels env env' [] outs s s' (λ j. rw fresh) e))
