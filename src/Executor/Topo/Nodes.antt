-- ===== src/Executor/Topo/Nodes.antt =====
-- The graph that `compute_topo_levels` builds from a plan, or the first dangling dependency.
use ansible_playbooks.Common.{
  ℕ, zero, suc, ◌+◌, ◌≤◌, ◌<◌, ◌≡◌, List, [], ◌∷◌, arith, length, inl, inr,
}
use ansible_playbooks.Common.{count}
use ansible_playbooks.Common.Results.{ok, Result-cases}
use ansible_playbooks.Resource.{Trait}
use ansible_playbooks.Plan.{Node, Plan}
use ansible_playbooks.Executor.Topo.{Graph, add_deps, add_nodes}
use ansible_playbooks.Executor.Topo.Edges.{degree, successors_of, Sized, Adds, add_deps-Adds}

module _ {S : Type 0} (T : Trait S) where
  -- The dependencies of the node at place `j`; none past the end.
  abbrev pub deps_at : Plan T.Resource → ℕ → List ℕ
  deps_at [] j = []
  deps_at (node ∷ nodes) zero = T.deps node.resource
  deps_at (node ∷ nodes) (suc j) = deps_at nodes j

  -- `g'` is `g` with the dependencies of `nodes`, which are numbered from `i`.
  pub record AddsAll (n i : ℕ) (nodes : Plan T.Resource) (g g' : Graph) : Type 0 where
    pub sized : Sized n g'
    pub in_range : (k d : ℕ) → 0 < count d (deps_at nodes k) → d < n
    pub old_degrees : (j : ℕ) → j < i → degree g' j ≡ degree g j
    pub degrees : (k : ℕ) → degree g' (i + k) ≡ degree g (i + k) + length (deps_at nodes k)
    pub old_edges : (j d : ℕ) → j < i → count j (successors_of g' d) ≡ count j (successors_of g d)
    pub edges :
        (k d : ℕ)
        → count (i + k) (successors_of g' d)
          ≡ count (i + k) (successors_of g d) + count d (deps_at nodes k)

  module _ (n i : ℕ) (node : Node T.Resource) (nodes : Plan T.Resource) {g g₁ g' : Graph}
      (first : Adds n i (T.deps node.resource) g g₁) (rest : AddsAll n (suc i) nodes g₁ g') where
    in_range-cons : (k d : ℕ) → 0 < count d (deps_at (node ∷ nodes) k) → d < n
    in_range-cons zero d h = first.in_range d h
    in_range-cons (suc k) d h = rest.in_range k d h

    degrees-cons :
        (k : ℕ) → degree g' (i + k) ≡ degree g (i + k) + length (deps_at (node ∷ nodes) k)
    degrees-cons zero = ground (arith, rest.old_degrees (i + 0), first.degrees (i + 0))
    degrees-cons (suc k) = ground (arith, rest.degrees k, first.degrees (i + suc k))

    edges-cons :
        (k d : ℕ)
        → count (i + k) (successors_of g' d)
          ≡ count (i + k) (successors_of g d) + count d (deps_at (node ∷ nodes) k)
    edges-cons zero d = ground (arith, rest.old_edges (i + 0) d, first.edges (i + 0) d)
    edges-cons (suc k) d = ground (arith, rest.edges k d, first.edges (i + suc k) d)

    AddsAll-cons : AddsAll n i (node ∷ nodes) g g'
    AddsAll-cons = record {
      sized = rest.sized;
      in_range = in_range-cons;
      old_degrees = λ j h. ground (arith, rest.old_degrees j, first.degrees j);
      degrees = degrees-cons;
      old_edges = λ j d h. ground (arith, rest.old_edges j d, first.edges j d);
      edges = edges-cons;
    }

  pub add_nodes-AddsAll :
      (n i : ℕ) (nodes : Plan T.Resource) (g g' : Graph)
      → i + length nodes ≤ n
      → Sized n g
      → add_nodes T n i nodes g ≡ ok g'
      → AddsAll n i nodes g g'
  unfolding add_nodes
  add_nodes-AddsAll n i [] g g' fits sized e = record {
    sized = ground arith;
    in_range = λ k d h. absurd (omega arith);
    old_degrees = λ j h. ground arith;
    degrees = λ k. ground arith;
    old_edges = λ j d h. ground arith;
    edges = λ k d. ground arith;
  }
  add_nodes-AddsAll n i (node ∷ nodes) g g' fits sized e =
      elim (Result-cases (add_deps n i (T.id_hint node.resource) (T.deps node.resource) g)) [
        | inl (g₁, added) ↦
            let first =
              add_deps-Adds n i (T.id_hint node.resource) (omega arith) (T.deps node.resource) g g₁
                sized added in
            AddsAll-cons n i node nodes first (
              add_nodes-AddsAll n (suc i) nodes g₁ g' (omega arith) first.sized
                (rw (added, add_nodes) at e))
        | inr (x, failed) ↦ absurd (ground arith)
      ]
