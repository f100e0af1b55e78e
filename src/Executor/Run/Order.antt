-- ===== src/Executor/Run/Order.antt =====
-- What a whole run answers for, and in which order.
use ansible_playbooks.Common.{
  ℕ, zero, suc, ◌+◌, ◌≤◌, ◌<◌, ◌≡◌, refl, ◌∙◌, String, ◌⊎◌, inl, inr, Option, none, some, List, [],
  ◌∷◌, ◌++◌, arith,
}
use ansible_playbooks.Common.{length, count, ltb, if◌then◌else◌, count-append, flatten, get_elem?}
use ansible_playbooks.Common.Results.{ok, Action, pure, lift, ◌>>=◌, >>=-eq-ok}
use mathlib.Core.List.{append_assoc, append-nil}
use ansible_playbooks.Env.{Env}
use ansible_playbooks.Error.{Error}
use ansible_playbooks.Resource.{Trait, Batcher}
use ansible_playbooks.Resource.Ids.{BatchFamily}
use ansible_playbooks.Plan.{Plan, len}
use ansible_playbooks.Plan.Laws.{IsNumbered}
use ansible_playbooks.Executor.Report.{ResourceOutcome, Report}
use ansible_playbooks.Executor.Topo.{compute_topo_levels}
use ansible_playbooks.Executor.Topo.Nodes.{deps_at}
use ansible_playbooks.Executor.Topo.Rounds.{IsLayered}
use ansible_playbooks.Executor.Topo.Correct.{compute_topo_levels-IsTopoOrder}
use ansible_playbooks.Executor.Run.{run_level, select, record_all, run_levels, run}
use ansible_playbooks.Executor.Run.Ids.{ids, count-ids-append, count_nodes, count-run_level}

-- Each outcome stands behind the outcomes of its dependencies.
abbrev pub IsSettled : (ℕ → List ℕ) → List ℕ → List ResourceOutcome → Type 0
IsSettled D seen [] = Unit {0}
IsSettled D seen (o ∷ outs) =
    ((d : ℕ) → 0 < count d (D o.id) → 0 < count d seen) × IsSettled D (seen ++ (o.id ∷ [])) outs

IsSettled-all :
    (D : ℕ → List ℕ) (seen : List ℕ) (outs : List ResourceOutcome)
    → ((a d : ℕ) → 0 < count a (ids outs) → 0 < count d (D a) → 0 < count d seen)
    → IsSettled D seen outs
IsSettled-all D seen [] h = tt
IsSettled-all D seen (o ∷ outs) h = (
  λ d m. h o.id d (ground arith) m,
  IsSettled-all D (seen ++ (o.id ∷ [])) outs
      λ a d m dep. omega (arith, h a d (omega arith) dep, count-append d seen (o.id ∷ [])),
)

IsSettled-append :
    (D : ℕ → List ℕ) (seen : List ℕ) (xs ys : List ResourceOutcome)
    → IsSettled D seen xs
    → IsSettled D (seen ++ ids xs) ys
    → IsSettled D seen (xs ++ ys)
IsSettled-append D seen [] ys hx hy = rw append-nil at hy
IsSettled-append D seen (x ∷ xs) ys hx hy =
    (hx.0, IsSettled-append D (seen ++ (x.id ∷ [])) xs ys hx.1 (rw append_assoc hy))

get_elem?-cases {ℓ} :
    {A : Type ℓ} (xs : List A) (i : ℕ)
    → ((x : A) × (get_elem? xs i ≡ some x) × (i < length xs))
      ⊎ ((get_elem? xs i ≡ none) × (length xs ≤ i))
get_elem?-cases [] i = inr (refl, omega arith)
get_elem?-cases (x ∷ xs) zero = inl (x, refl, omega arith)
get_elem?-cases (x ∷ xs) (suc i) = elim (get_elem?-cases xs i) [
  | inl (y, found, lt) ↦ inl (y, found, omega arith)
  | inr (absent, le) ↦ inr (absent, omega arith)
]

module _ {S : Type 0} (T : Trait S) (batchers : BatchFamily → Option (Batcher S T.Resource))
    (show : ℕ → String) (plan : Plan T.Resource) (numbered : IsNumbered plan) where
  count-select :
      (a : ℕ) (level : List ℕ)
      → count_nodes T batchers a (select T batchers show plan level)
        ≡ (if ltb a (len plan) then count a level else 0)
  unfolding select
  count-select a [] = ground arith
  count-select a (i ∷ is) = elim (get_elem?-cases plan i) [
    | inl (node, found, inside) ↦
        rw (found, select) (ground (arith, numbered i node found, count-select a is))
    | inr (absent, outside) ↦ rw (absent, select) (ground (arith, count-select a is))
  ]

  count-run_levels :
      (schedule : ℕ → ℕ → ℕ) (levels : List (List ℕ)) (env env' : Env)
      (outs outs' : List ResourceOutcome) (s s' : S)
      → run_levels T batchers show plan schedule levels env outs s ≡ (ok (outs', env'), s')
      → (a : ℕ)
      → count a (ids outs')
        ≡ count a (ids outs) + (if ltb a (len plan) then count a (flatten levels) else 0)
  unfolding run_levels
  count-run_levels schedule [] env env' outs outs' s s' e a = ground arith
  count-run_levels schedule (level ∷ levels) env env' outs outs' s s' e a =
      let nodes = select T batchers show plan level in
      let later : ℕ → ℕ → ℕ = λ k. schedule (suc k) in
      let (new, ran, rest) =
        >>=-eq-ok (run_level T batchers show (schedule 0) nodes env)
          (λ new.
            run_levels T batchers show plan later levels (record_all T batchers show env new)
              (outs ++ new))
          s s' e in
      let s₁ = (run_level T batchers show (schedule 0) nodes env s).1 in
      ground (
        arith,
        count-run_level T batchers a show (schedule 0) nodes env s s₁ new (ground arith),
        count-select a level,
        count-run_levels later levels (record_all T batchers show env new) env' (outs ++ new) outs'
            s₁ s' rest a,
        count-ids-append a outs new,
        count-append a level (flatten levels),
      )

  -- `seen` lists the nodes of the levels before, all of which have their outcome.
  run_levels-IsSettled :
      (schedule : ℕ → ℕ → ℕ) (levels : List (List ℕ)) (seen : List ℕ) (env env' : Env)
      (outs outs' : List ResourceOutcome) (s s' : S)
      → IsLayered (deps_at T plan) seen levels
      → ((a : ℕ) → 0 < count a seen → 0 < count a (ids outs))
      → ((a : ℕ) → 0 < count a (flatten levels) → a < len plan)
      → IsSettled (deps_at T plan) [] outs
      → run_levels T batchers show plan schedule levels env outs s ≡ (ok (outs', env'), s')
      → IsSettled (deps_at T plan) [] outs'
  unfolding run_levels
  run_levels-IsSettled schedule [] seen env env' outs outs' s s' layered known inside settled e =
      let same : outs ≡ outs' = ground arith in rw same at settled
  run_levels-IsSettled schedule (level ∷ levels) seen env env' outs outs' s s' layered known inside
        settled e =
      let D = deps_at T plan in
      let nodes = select T batchers show plan level in
      let later : ℕ → ℕ → ℕ = λ k. schedule (suc k) in
      let (new, ran, rest) =
        >>=-eq-ok (run_level T batchers show (schedule 0) nodes env)
          (λ new.
            run_levels T batchers show plan later levels (record_all T batchers show env new)
              (outs ++ new))
          s s' e in
      let s₁ = (run_level T batchers show (schedule 0) nodes env s).1 in
      let answered : (a : ℕ) → count a (ids new) ≡ (if ltb a (len plan) then count a level else 0) =
        λ a.
          count-run_level T batchers a show (schedule 0) nodes env s s₁ new (ground arith)
          ∙ count-select a level in
      let next : IsSettled D (ids outs) new =
        IsSettled-all D (ids outs) new
          λ a d m dep. known d (layered.0 a d (ground (arith, answered a)) dep) in
      run_levels-IsSettled later levels (seen ++ level) (record_all T batchers show env new) env'
        (outs ++ new) outs' s₁ s' layered.1
        (λ a m. ground (
          arith,
          known a,
          answered a,
          count-append a seen level,
          count-ids-append a outs new,
          inside a,
          count-append a level (flatten levels),
        ))
        (λ a m. inside a (omega (arith, count-append a level (flatten levels))))
        (IsSettled-append D [] outs new settled next) rest

  module _ (schedule : ℕ → ℕ → ℕ) (env : Env) (s s' : S) (report : Report)
      (e : run T batchers show plan schedule env s ≡ (ok report, s')) where
    -- The levels of a run that succeeds, and the run over them.
    record Completed : Type 0 where
      levels : List (List ℕ)
      final : Env
      sorted : compute_topo_levels T plan ≡ ok levels
      ran :
          run_levels T batchers show plan schedule levels env [] s
          ≡ (ok (report.outcomes, final), s')

    run-Completed : Completed
    unfolding run
    run-Completed =
        let after : List (List ℕ) → Action S Error Report = λ levels.
          run_levels T batchers show plan schedule levels env [] >>= λ (outcomes, _).
          pure (record { outcomes = outcomes }) in
        let (levels, sorted, rest) = >>=-eq-ok (lift (compute_topo_levels T plan)) after s s' e in
        let ((outcomes, final), ran, done) =
          >>=-eq-ok (run_levels T batchers show plan schedule levels env [])
            (λ (outcomes, _). pure (record { outcomes = outcomes })) s s' rest in
        record { levels = levels; final = final; sorted = sorted; ran = ground arith }

    -- A run that succeeds, of a plan whose nodes carry their place as id, reports each node
    -- exactly once, and nothing else.
    pub run-each_once :
        (a : ℕ) → count a (ids report.outcomes) ≡ (if ltb a (len plan) then 1 else 0)
    run-each_once a =
        let c = run-Completed in
        let order = compute_topo_levels-IsTopoOrder T plan c.levels c.sorted in
        ground (
          arith,
          order.each_once a,
          count-run_levels schedule c.levels env c.final [] report.outcomes s s' c.ran a,
        )

    -- In the report of a run that succeeds, of a plan whose nodes carry their place as id and
    -- whatever the schedule, each outcome stands behind the outcomes of everything that its node
    -- depends on.
    pub run-IsSettled : IsSettled (deps_at T plan) [] report.outcomes
    run-IsSettled =
        let c = run-Completed in
        let order = compute_topo_levels-IsTopoOrder T plan c.levels c.sorted in
        run_levels-IsSettled schedule c.levels [] env c.final [] report.outcomes s s' order.layered
          (λ a m. absurd (omega arith)) (λ a m. ground (arith, order.each_once a)) tt c.ran
