-- ===== src/Executor/Topo.antt =====
-- `Executor::compute_topo_levels` in src/executor.rs: Kahn's algorithm, level by level.
pub mod Edges
pub mod Nodes
pub mod Pending
pub mod Rounds
pub mod Sorted
pub mod Dangling
pub mod Correct
pub mod Backward
use ansible_playbooks.Common.{ℕ, zero, suc, ◌+◌, ◌-◌, String, Bool, Option, none, some}
use ansible_playbooks.Common.{List, [], ◌∷◌, ◌++◌, length, get_or, set, replicate, filterb}
use ansible_playbooks.Common.{ltb, leb, ◌==◌, if◌then◌else◌}
use ansible_playbooks.Common.Results.{Result, ok, err}
use ansible_playbooks.Error.{Error, plan_cycle, plan_references_unknown_resource}
use ansible_playbooks.Resource.{Trait}
use ansible_playbooks.Plan.{Node, Plan, len}

-- Every index below is in range: the dependencies are checked against `n` before they are used.
pub record Graph : Type 0 where
  pub in_degree : List ℕ
  pub successors : List (List ℕ)

unfoldable pub add_edge : (i dep : ℕ) → Graph → Graph
add_edge i dep g = record {
  in_degree = set g.in_degree i (get_or g.in_degree i 0 + 1);
  successors = set g.successors dep (get_or g.successors dep [] ++ (i ∷ []));
}

-- `for dep_id in node.resource.deps()`
unfoldable pub add_deps : (n i : ℕ) (id_hint : String) → List ℕ → Graph → Result Error Graph
add_deps n i id_hint [] g = ok g
add_deps n i id_hint (dep_idx ∷ deps) g =
    if leb n dep_idx
    then err (plan_references_unknown_resource id_hint dep_idx)
    else add_deps n i id_hint deps (add_edge i dep_idx g)

-- `for &j in &successors[i]`, over the degrees and `next`.
unfoldable pub relax : List ℕ → List ℕ → List ℕ → List ℕ × List ℕ
relax [] in_degree next = (in_degree, next)
relax (j ∷ js) in_degree next =
    let d = get_or in_degree j 0 - 1 in
    relax js (set in_degree j d) (if d == 0 then next ++ (j ∷ []) else next)

-- `for &i in &current`
unfoldable pub visit_level : List (List ℕ) → List ℕ → List ℕ → List ℕ → List ℕ × List ℕ
visit_level successors [] in_degree next = (in_degree, next)
visit_level successors (i ∷ is) in_degree next =
    let (in_degree', next') = relax (get_or successors i []) in_degree next in
    visit_level successors is in_degree' next'

-- The variables of the `while` loop.
pub record Loop : Type 0 where
  pub in_degree : List ℕ
  pub current : List ℕ
  pub levels : List (List ℕ)
  pub visited : ℕ

-- The loop's body. `visited` counts one for each member of `current`.
unfoldable pub round : List (List ℕ) → Loop → Loop
round successors l =
    let (in_degree, next) = visit_level successors l.current l.in_degree [] in
    record {
      in_degree = in_degree;
      current = next;
      levels = l.levels ++ (l.current ∷ []);
      visited = l.visited + length l.current;
    }

-- `while !current.is_empty()`, on fuel.
unfoldable pub rounds : ℕ → List (List ℕ) → Loop → Loop
rounds zero successors l = l
rounds (suc fuel) successors l = elim l.current [
  | [] ↦ l
  | i ∷ is ↦ rounds fuel successors (round successors l)
]

-- `(from..from + k).collect()`
abbrev pub range : (from k : ℕ) → List ℕ
range from zero = []
range from (suc k) = from ∷ range (suc from) k

unfoldable pub start : ℕ → Graph → Loop
start n g = record {
  in_degree = g.in_degree;
  current = filterb (λ i. get_or g.in_degree i 0 == 0) (range 0 n);
  levels = [];
  visited = 0;
}

module _ {S : Type 0} (T : Trait S) where
  -- `for (i, node) in nodes.iter().enumerate()`
  unfoldable pub add_nodes : (n i : ℕ) → Plan T.Resource → Graph → Result Error Graph
  add_nodes n i [] g = ok g
  add_nodes n i (node ∷ nodes) g =
      elim (add_deps n i (T.id_hint node.resource) (T.deps node.resource) g) [
        | ok g' ↦ add_nodes n (suc i) nodes g'
        | err e ↦ err e
      ]

  -- `.find(|(i, _)| in_degree[*i] > 0)`, and the hint of what it finds.
  unfoldable pub stuck : ℕ → Plan T.Resource → List ℕ → String
  stuck i [] in_degree = "<unknown>"
  stuck i (node ∷ nodes) in_degree =
      if ltb 0 (get_or in_degree i 0)
      then T.id_hint node.resource
      else stuck (suc i) nodes in_degree

  unfoldable pub finish : Plan T.Resource → Loop → Result Error (List (List ℕ))
  finish plan l =
      if l.visited == len plan then ok l.levels else err (plan_cycle (stuck 0 plan l.in_degree))

  -- Each round visits a node, so `len plan` rounds are enough.
  unfoldable pub sort : Plan T.Resource → Graph → Loop
  sort plan g = rounds (len plan) g.successors (start (len plan) g)

  unfoldable pub compute_topo_levels : Plan T.Resource → Result Error (List (List ℕ))
  compute_topo_levels plan =
      let n = len plan in
      elim (add_nodes n 0 plan
        (record { in_degree = replicate n 0; successors = replicate n [] })) [
          | ok g ↦ finish plan (sort plan g)
          | err e ↦ err e
        ]
