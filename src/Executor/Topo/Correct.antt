-- ===== src/Executor/Topo/Correct.antt =====
-- What `compute_topo_levels` promises, of success and of both errors.
use ansible_playbooks.Common.{
  ℕ, zero, suc, ◌<◌, ◌≡◌, ◌⊎◌, inl, inr, false, some, List, [], arith, get_elem?, get_or,
}
use ansible_playbooks.Common.{
  count, ltb, ◌==◌, if◌then◌else◌, flatten, Bool-cases, sum_below, sum_below-count, sum_below-full,
  sum_below-all_one,
}
use ansible_playbooks.Common.Results.{ok, err, Result-cases}
use native.Mathlib.Nat.{zero-add}
use ansible_playbooks.Error.{Error, plan_cycle}
use ansible_playbooks.Resource.{Trait}
use ansible_playbooks.Plan.{Node, Plan, len}
use ansible_playbooks.Executor.Topo.{Loop, add_nodes, sort, stuck, finish, compute_topo_levels}
use ansible_playbooks.Executor.Topo.Nodes.{deps_at}
use ansible_playbooks.Executor.Topo.Dangling.{Dangling, add_nodes-err, stuck-cases}
use ansible_playbooks.Executor.Topo.Pending.{pending_of_count_done}
use ansible_playbooks.Executor.Topo.Rounds.{IsLayered}
use ansible_playbooks.Executor.Topo.Sorted.{empty_graph, add_nodes-IsGraph, IsFinal, sort-IsFinal}

module _ {S : Type 0} (T : Trait S) (plan : Plan T.Resource) where
  -- Each node stands in exactly one level, once, and behind the levels of its dependencies.
  pub record IsTopoOrder (levels : List (List ℕ)) : Type 0 where
    pub each_once : (j : ℕ) → count j (flatten levels) ≡ (if ltb j (len plan) then 1 else 0)
    pub layered : IsLayered (deps_at T plan) [] levels

  -- The dependencies exist, and `rank` falls along them: there is no cycle.
  pub record IsAcyclic (rank : ℕ → ℕ) : Type 0 where
    pub in_range : (j d : ℕ) → 0 < count d (deps_at T plan j) → d < len plan
    pub falls : (j d : ℕ) → 0 < count d (deps_at T plan j) → rank d < rank j

  module _ (l : Loop) (final : IsFinal T plan l) where
    total : sum_below (len plan) (λ j. count j (flatten l.levels)) ≡ l.visited
    total = omega (
      arith,
      final.counted,
      sum_below-count (len plan) (flatten l.levels) (λ j le. ground (arith, final.once j)),
    )

    all_visited : l.visited ≡ len plan → (j : ℕ) → j < len plan → count j (flatten l.levels) ≡ 1
    all_visited full =
        sum_below-full (len plan) (λ j. count j (flatten l.levels))
          (λ j. ground (arith, final.once j)) (omega (arith, total))

    finish-IsTopoOrder : (levels : List (List ℕ)) → finish T plan l ≡ ok levels → IsTopoOrder levels
    unfolding finish
    finish-IsTopoOrder levels e = elim (Bool-cases (l.visited == len plan)) [
      | inl full ↦
          let same : l.levels ≡ levels = ground arith in
          rw (← same) (record {
            each_once = λ j. ground (arith, final.once j, all_visited (ground arith) j);
            layered = final.layered;
          })
      | inr short ↦ absurd (ground arith)
    ]

    -- Along falling ranks, every node gets rid of its dependencies.
    no_degree :
        (rank : ℕ → ℕ) → IsAcyclic rank → (k j : ℕ) → rank j < k → get_or l.in_degree j 0 ≡ 0
    no_degree rank acyclic zero j h = elim h [ ]
    no_degree rank acyclic (suc k) j h =
        let done = pending_of_count_done (flatten l.levels) (deps_at T plan j) λ d m. ground (
          arith,
          no_degree rank acyclic k d,
          acyclic.falls j d m,
          acyclic.in_range j d m,
          final.once d,
        ) in
        omega (arith, final.degrees j, done)

    finish-acyclic : (rank : ℕ → ℕ) → IsAcyclic rank → finish T plan l ≡ ok l.levels
    unfolding finish
    finish-acyclic rank acyclic =
        let full =
          sum_below-all_one (len plan) (λ j. count j (flatten l.levels))
            (λ j lt.
              ground
                (arith, final.once j, no_degree rank acyclic (suc (rank j)) j (omega arith))) in
        ground (arith, full, total)

  -- The levels of a run that succeeds are an order of the plan: each node stands in exactly one
  -- level, once, and everything that it depends on stands in an earlier level.
  pub compute_topo_levels-IsTopoOrder :
      (levels : List (List ℕ)) → compute_topo_levels T plan ≡ ok levels → IsTopoOrder levels
  unfolding compute_topo_levels
  compute_topo_levels-IsTopoOrder levels e =
      elim (Result-cases (add_nodes T (len plan) 0 plan (empty_graph (len plan)))) [
        | inl (g, built) ↦
            let final = sort-IsFinal T plan g (add_nodes-IsGraph T plan g built) in
            finish-IsTopoOrder (sort T plan g) final levels (rw (built, compute_topo_levels) at e)
        | inr (x, failed) ↦ absurd (ground arith)
      ]

  -- A plan whose dependencies exist and have no cycle is sorted: no error is reported.
  pub compute_topo_levels-acyclic :
      (rank : ℕ → ℕ)
      → IsAcyclic rank
      → (levels : List (List ℕ)) × (compute_topo_levels T plan ≡ ok levels)
  unfolding compute_topo_levels
  compute_topo_levels-acyclic rank acyclic =
      elim (Result-cases (add_nodes T (len plan) 0 plan (empty_graph (len plan)))) [
        | inl (g, built) ↦
            let final = sort-IsFinal T plan g (add_nodes-IsGraph T plan g built) in
            (
              (sort T plan g).levels,
              rw (built, compute_topo_levels) (finish-acyclic (sort T plan g) final rank acyclic),
            )
        | inr (x, failed) ↦
            let d = add_nodes-err T (len plan) 0 plan _ x failed in
            absurd (omega (arith, d.outside, acyclic.in_range d.place d.dep d.listed))
      ]

  -- The error names a node of the plan, all dependencies exist, and nothing falls along them all:
  -- the plan does have a cycle.
  pub record CycleReport (e : Error) : Type 0 where
    pub place : ℕ
    pub node : Node T.Resource
    pub found : get_elem? plan place ≡ some node
    pub reported : e ≡ plan_cycle (T.id_hint node.resource)
    pub in_range : (j d : ℕ) → 0 < count d (deps_at T plan j) → d < len plan
    pub cyclic : (rank : ℕ → ℕ) → ¬ ((j d : ℕ) → 0 < count d (deps_at T plan j) → rank d < rank j)

  module _ (l : Loop) (final : IsFinal T plan l) (e : Error) (failed : finish T plan l ≡ err e)
      (inside : (j d : ℕ) → 0 < count d (deps_at T plan j) → d < len plan) where
    short : (l.visited == len plan) ≡ false
    unfolding finish
    short = ground arith

    reported_hint : e ≡ plan_cycle (stuck T 0 plan l.in_degree)
    unfolding finish
    reported_hint = ground arith

    finish-CycleReport : CycleReport e
    finish-CycleReport = elim (stuck-cases T 0 plan l.in_degree) [
      | inl s ↦ record {
        place = s.place;
        node = s.node;
        found = s.found;
        reported = ground (arith, reported_hint, s.reported);
        in_range = inside;
        cyclic = λ rank falls. ground (
          arith,
          failed,
          finish-acyclic l final rank (record { in_range = inside; falls = falls }),
        );
      }
      | inr free ↦
          let full =
            sum_below-all_one (len plan) (λ j. count j (flatten l.levels))
              (λ j lt. ground (arith, final.once j, free j lt, zero-add j)) in
          absurd (ground (arith, short, full, total l final))
    ]

  -- A plan that is refused has a dependency that does not exist, or all its dependencies exist and
  -- it has a cycle. The error names the node and its dependency in the first case, and a node of
  -- the plan in the second.
  pub compute_topo_levels-err :
      (e : Error)
      → compute_topo_levels T plan ≡ err e
      → Dangling T (len plan) plan e ⊎ CycleReport e
  unfolding compute_topo_levels
  compute_topo_levels-err e failed =
      elim (Result-cases (add_nodes T (len plan) 0 plan (empty_graph (len plan)))) [
        | inl (g, built) ↦
            let graph = add_nodes-IsGraph T plan g built in
            inr (
              finish-CycleReport (sort T plan g) (sort-IsFinal T plan g graph) e
                (rw (built, compute_topo_levels) at failed) graph.in_range)
        | inr (x, wrong) ↦
            let same : x ≡ e = ground arith in
            inl (rw same at (add_nodes-err T (len plan) 0 plan _ x wrong))
      ]
