-- ===== src/Tests/Executor.antt =====
-- The executor on small plans.
use ansible_playbooks.Common.{
  ℕ, zero, suc, ◌<◌, ◌≡◌, refl, ◌⊎◌, none, some, List, [], ◌∷◌, arith, count, any, if◌then◌else◌,
  ltb, get_elem?, ◌==◌,
}
use ansible_playbooks.Common.Results.{ok, err}
use ansible_playbooks.Common.Text.{decimal}
use ansible_playbooks.Env.{any_changed, record_changed}
use ansible_playbooks.Error.{plan_cycle}
use ansible_playbooks.Resource.{evaluate}
use ansible_playbooks.Resource.Ids.{changed_yes, changed_skipped}
use ansible_playbooks.Plan.{len, add}
use ansible_playbooks.Plan.Laws.{IsNumbered, nil-IsNumbered, add-IsNumbered}
use ansible_playbooks.Executor.Report.{Report}
use ansible_playbooks.Executor.Topo.{
  compute_topo_levels, add_nodes, add_deps, add_edge, sort, rounds, round, visit_level, relax,
  start, finish, stuck,
}
use ansible_playbooks.Executor.Topo.Nodes.{deps_at}
use ansible_playbooks.Executor.Topo.Dangling.{Dangling}
use ansible_playbooks.Executor.Topo.Correct.{
  IsTopoOrder, CycleReport, compute_topo_levels-IsTopoOrder, compute_topo_levels-acyclic,
  compute_topo_levels-err,
}
use ansible_playbooks.Executor.Run.{
  run, run_levels, run_level, partition, push_group, tasks, join_all, join_task, run_one,
  run_batched, select, record_all,
}
use ansible_playbooks.Executor.Run.Ids.{ids}
use ansible_playbooks.Executor.Run.Order.{IsSettled, run-each_once, run-IsSettled}
use ansible_playbooks.Executor.Run.Notify.{changed_in, any_changed-run_levels}
use ansible_playbooks.Tests.Fakes.{fake, fakes, no_batchers, chain, loop, container, in_order}

unfoldable topo_program : Unit {0}
unfolding compute_topo_levels add_nodes add_deps add_edge sort rounds round visit_level relax start
    finish stuck
topo_program = tt

unfoldable pub run_program : Unit {0}
unfolding topo_program run run_levels run_level partition push_group tasks join_all join_task
    run_one run_batched select record_all evaluate record_changed
run_program = tt

chain_levels : compute_topo_levels fakes chain ≡ ok ((0 ∷ []) ∷ (1 ∷ []) ∷ (2 ∷ []) ∷ [])
unfolding topo_program
chain_levels = refl

loop_fails : compute_topo_levels fakes loop ≡ err (plan_cycle "fake:a")
unfolding topo_program
loop_fails = refl

compute_topo_levels-IsTopoOrder_example :
    IsTopoOrder fakes chain ((0 ∷ []) ∷ (1 ∷ []) ∷ (2 ∷ []) ∷ [])
compute_topo_levels-IsTopoOrder_example =
    compute_topo_levels-IsTopoOrder fakes chain ((0 ∷ []) ∷ (1 ∷ []) ∷ (2 ∷ []) ∷ []) chain_levels

chain_ranked : (j d : ℕ) → 0 < count d (deps_at fakes chain j) → d < j
chain_ranked zero d m = absurd (omega arith)
chain_ranked (suc zero) d m = ground arith
chain_ranked (suc (suc zero)) d m = ground arith
chain_ranked (suc (suc (suc j))) d m = absurd (omega arith)

chain_inside : (j d : ℕ) → 0 < count d (deps_at fakes chain j) → d < 3
chain_inside zero d m = absurd (omega arith)
chain_inside (suc zero) d m = ground arith
chain_inside (suc (suc zero)) d m = ground arith
chain_inside (suc (suc (suc j))) d m = absurd (omega arith)

compute_topo_levels-acyclic_example :
    (levels : List (List ℕ)) × (compute_topo_levels fakes chain ≡ ok levels)
compute_topo_levels-acyclic_example =
    compute_topo_levels-acyclic fakes chain (λ j. j)
      (record { in_range = chain_inside; falls = chain_ranked })

compute_topo_levels-err_example :
    Dangling fakes 2 loop (plan_cycle "fake:a") ⊎ CycleReport fakes loop (plan_cycle "fake:a")
compute_topo_levels-err_example =
    compute_topo_levels-err fakes loop (plan_cycle "fake:a") loop_fails

add-IsNumbered_example :
    IsNumbered (add [] (fake "a" [])).0
    × ((add [] (fake "a" [])).1 ≡ 0)
    × (len (add [] (fake "a" [])).0 ≡ 1)
    × ((i : ℕ)
        → get_elem? (add [] (fake "a" [])).0 i
          ≡ (if i == 0 then some (record { id = i; resource = fake "a" [] }) else none))
add-IsNumbered_example = add-IsNumbered [] (fake "a" []) nil-IsNumbered

chain-IsNumbered : IsNumbered chain
chain-IsNumbered zero n e = ground arith
chain-IsNumbered (suc zero) n e = ground arith
chain-IsNumbered (suc (suc zero)) n e = ground arith
chain-IsNumbered (suc (suc (suc i))) n e = cc

abbrev chain_report : Report
chain_report = record {
  outcomes =
      record { id = 0; id_hint = "fake:a"; changed = changed_yes }
      ∷ record { id = 1; id_hint = "fake:b"; changed = changed_yes }
      ∷ record { id = 2; id_hint = "fake:c"; changed = changed_skipped }
      ∷ [];
}

-- In a container the third resource is skipped, and the other two converge.
chain_runs : run fakes no_batchers decimal chain in_order container 0 ≡ (ok chain_report, 2)
unfolding run_program
chain_runs = refl

run-each_once_example : count 2 (ids chain_report.outcomes) ≡ (if ltb 2 3 then 1 else 0)
run-each_once_example =
    run-each_once fakes no_batchers decimal chain chain-IsNumbered in_order container 0 2
      chain_report chain_runs 2

run-IsSettled_example : IsSettled (deps_at fakes chain) [] chain_report.outcomes
run-IsSettled_example =
    run-IsSettled fakes no_batchers decimal chain chain-IsNumbered in_order container 0 2
      chain_report chain_runs

first_level : run_levels fakes no_batchers decimal chain in_order ((0 ∷ []) ∷ []) container [] 0 ≡ (
  ok (
    record { id = 0; id_hint = "fake:a"; changed = changed_yes } ∷ [],
    record container { run_state = 0 ∷ [] },
  ),
  1,
)
unfolding run_program
first_level = refl

any_changed-run_levels_example :
    any_changed (record container { run_state = 0 ∷ [] }) (3 ∷ 0 ∷ [])
    ≡ any
        (changed_in (record { id = 0; id_hint = "fake:a"; changed = changed_yes } ∷ []))
        (3 ∷ 0 ∷ [])
any_changed-run_levels_example =
    any_changed-run_levels fakes no_batchers decimal chain in_order ((0 ∷ []) ∷ []) container
      (record container { run_state = 0 ∷ [] })
      (record { id = 0; id_hint = "fake:a"; changed = changed_yes } ∷ []) 0 1 (3 ∷ 0 ∷ []) refl
      first_level
