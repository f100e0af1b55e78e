-- ===== src/Backends/Markers.antt =====
-- What src/backends/service.rs and command.rs see of a src/backends/marker.rs that they watch.
use ansible_playbooks.Common.{ℕ, ◌≡◌, refl, ◌∙◌, sym, some, List, [], ◌∷◌, arith, get_elem?}
use ansible_playbooks.Common.Results.{ok}
use ansible_playbooks.Common.Text.{decimal}
use ansible_playbooks.Env.{Env, any_changed}
use ansible_playbooks.Resource.Ids.{ResourceId}
use ansible_playbooks.Host.{Host}
use ansible_playbooks.Plan.{Node, Plan}
use ansible_playbooks.Plan.Laws.{IsNumbered}
use ansible_playbooks.Backends.Marker
use ansible_playbooks.Backends.Marker.{Marker}
use ansible_playbooks.Backends.Registry.{Resource, marker, converge_one, backends}
use ansible_playbooks.Backends.Batchers.{batchers}
use ansible_playbooks.Executor.Report.{ResourceOutcome}
use ansible_playbooks.Executor.Run.{run_levels}
use ansible_playbooks.Executor.Run.Notify.{any_changed-run_levels}
use ansible_playbooks.Executor.Run.Quiet.{IsQuiet, QuietNode, changed_in-run_levels}

module _ (H : Host) where
  marker-IsQuiet : (a : ℕ) (m : Marker) → IsQuiet (backends H) (batchers H) a (marker m)
  unfolding converge_one Marker.converge_one
  marker-IsQuiet a m = record { alone = refl; silent = λ env s e. cc }

  -- In a plan whose nodes carry their place as id, a run that began with nothing recorded never
  -- reports a marker as changed: what watches it and others is told the same without it.
  pub any_changed-marker :
      (plan : Plan Resource)
      → IsNumbered plan
      → (schedule : ℕ → ℕ → ℕ) (levels : List (List ℕ)) (start env : Env)
        (outs : List ResourceOutcome) (s s' : H.State)
      → start.run_state ≡ []
      → run_levels (backends H) (batchers H) decimal plan schedule levels start [] s
        ≡ (ok (outs, env), s')
      → (i : ResourceId) (node : Node Resource) (m : Marker) → get_elem? plan i ≡ some node
      → node.resource ≡ marker m
      → (watched : List ResourceId) → any_changed env (i ∷ watched) ≡ any_changed env watched
  any_changed-marker plan numbered schedule levels start env outs s s' fresh ran i node m found same
        watched =
      let T = backends H in
      let B = batchers H in
      let quiet : (j : ℕ) (n : Node Resource) → get_elem? plan j ≡ some n → QuietNode T B i n =
        λ j n at here.
          let place : j ≡ i = sym (numbered j n at) ∙ here in
          let one : n ≡ node = ground (arith, at, place, found) in
          rw (one, same) (marker-IsQuiet i m) in
      let none_yet =
        changed_in-run_levels T B i decimal plan quiet schedule levels start env [] outs s s' refl
          ran in
      let told = λ (ids : List ResourceId).
        any_changed-run_levels T B decimal plan schedule levels start env outs s s' ids fresh ran in
      ground (arith, told (i ∷ watched), told watched, none_yet)
