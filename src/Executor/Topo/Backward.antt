-- ===== src/Executor/Topo/Backward.antt =====
-- Plans as the bundles build them: each dependency is an id that `Plan::add` returned before.
use ansible_playbooks.Common.{ℕ, zero, suc, ◌<◌, ◌≡◌, List, [], ◌∷◌, arith, count}
use ansible_playbooks.Common.Results.{ok}
use ansible_playbooks.Resource.{Trait}
use ansible_playbooks.Plan.{Plan, len}
use ansible_playbooks.Executor.Topo.{compute_topo_levels}
use ansible_playbooks.Executor.Topo.Nodes.{deps_at}
use ansible_playbooks.Executor.Topo.Correct.{compute_topo_levels-acyclic}

module _ {S : Type 0} (T : Trait S) where
  -- Every dependency points at an earlier node.
  abbrev pub IsBackward : Plan T.Resource → Type 0
  IsBackward plan = (j d : ℕ) → 0 < count d (deps_at T plan j) → d < j

  deps_at_inside :
      (plan : Plan T.Resource) (j d : ℕ) → 0 < count d (deps_at T plan j) → j < len plan
  deps_at_inside [] j d m = absurd (omega arith)
  deps_at_inside (node ∷ plan) zero d m = omega arith
  deps_at_inside (node ∷ plan) (suc j) d m = omega (arith, deps_at_inside plan j d m)

  -- A plan whose dependencies all point at earlier nodes is always sorted.
  pub compute_topo_levels-backward :
      (plan : Plan T.Resource)
      → IsBackward plan
      → (levels : List (List ℕ)) × (compute_topo_levels T plan ≡ ok levels)
  compute_topo_levels-backward plan backward =
      compute_topo_levels-acyclic T plan (λ j. j)
        (record {
          in_range = λ j d m. omega (arith, backward j d m, deps_at_inside plan j d m);
          falls = backward;
        })
