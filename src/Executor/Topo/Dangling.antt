-- ===== src/Executor/Topo/Dangling.antt =====
-- Why the first loop of `compute_topo_levels` fails.
use ansible_playbooks.Common.{
  ℕ, zero, suc, ◌+◌, ◌≤◌, ◌<◌, ◌≡◌, refl, ◌⊎◌, inl, inr, some, false, List, [], ◌∷◌, arith, length,
  get_elem?, String,
}
use ansible_playbooks.Common.{count, leb, ltb, Bool-cases, get_or}
use ansible_playbooks.Common.Results.{err, Result-cases}
use ansible_playbooks.Error.{Error, plan_references_unknown_resource}
use native.Mathlib.Nat.{add-zero}
use ansible_playbooks.Resource.{Trait}
use ansible_playbooks.Plan.{Node, Plan}
use ansible_playbooks.Executor.Topo.{Graph, add_edge, add_deps, add_nodes, stuck}
use ansible_playbooks.Executor.Topo.Nodes.{deps_at}

record DanglingDep (n : ℕ) (hint : String) (ds : List ℕ) (e : Error) : Type 0 where
  dep : ℕ
  listed : 0 < count dep ds
  outside : n ≤ dep
  reported : e ≡ plan_references_unknown_resource hint dep

add_deps-err :
    (n i : ℕ) (hint : String) (ds : List ℕ) (g : Graph) (e : Error)
    → add_deps n i hint ds g ≡ err e
    → DanglingDep n hint ds e
unfolding add_deps
add_deps-err n i hint [] g e failed = absurd (ground arith)
add_deps-err n i hint (d ∷ ds) g e failed = elim (Bool-cases (leb n d)) [
  | inl out ↦ record {
    dep = d;
    listed = ground arith;
    outside = ground arith;
    reported = ground arith;
  }
  | inr within ↦
      let rest = add_deps-err n i hint ds (add_edge i d g) e (rw within at failed) in
      record {
        dep = rest.dep;
        listed = ground (arith, rest.listed);
        outside = rest.outside;
        reported = rest.reported;
      }
]

free_cons :
    (i : ℕ) (in_degree : List ℕ) (m : ℕ)
    → ltb 0 (get_or in_degree i 0) ≡ false
    → ((k : ℕ) → k < m → get_or in_degree (suc i + k) 0 ≡ 0)
    → (k : ℕ) → k < suc m
    → get_or in_degree (i + k) 0 ≡ 0
free_cons i in_degree m free rest zero h = ground (arith, add-zero i)
free_cons i in_degree m free rest (suc k) h = ground (arith, rest k)

module _ {S : Type 0} (T : Trait S) where
  -- Node `place` of the plan has the dependency `dep`, and the plan has no such place.
  pub record Dangling (n : ℕ) (nodes : Plan T.Resource) (e : Error) : Type 0 where
    pub place : ℕ
    pub node : Node T.Resource
    pub dep : ℕ
    pub found : get_elem? nodes place ≡ some node
    pub listed : 0 < count dep (deps_at T nodes place)
    pub outside : n ≤ dep
    pub reported : e ≡ plan_references_unknown_resource (T.id_hint node.resource) dep

  pub add_nodes-err :
      (n i : ℕ) (nodes : Plan T.Resource) (g : Graph) (e : Error)
      → add_nodes T n i nodes g ≡ err e
      → Dangling n nodes e
  unfolding add_nodes
  add_nodes-err n i [] g e failed = absurd (ground arith)
  add_nodes-err n i (node ∷ nodes) g e failed =
      elim (Result-cases (add_deps n i (T.id_hint node.resource) (T.deps node.resource) g)) [
        | inl (g₁, added) ↦
            let rest = add_nodes-err n (suc i) nodes g₁ e (rw (added, add_nodes) at failed) in
            record {
              place = suc rest.place;
              node = rest.node;
              dep = rest.dep;
              found = rest.found;
              listed = rest.listed;
              outside = rest.outside;
              reported = rest.reported;
            }
        | inr (x, wrong) ↦
            let here =
              add_deps-err n i (T.id_hint node.resource) (T.deps node.resource) g x wrong in
            record {
              place = 0;
              node = node;
              dep = here.dep;
              found = refl;
              listed = here.listed;
              outside = here.outside;
              reported = ground (arith, here.reported);
            }
      ]

  -- A node whose in-degree has not reached 0, and its hint.
  pub record Stuck (nodes : Plan T.Resource) (in_degree : List ℕ) (i : ℕ) (hint : String)
      : Type 0 where
    pub place : ℕ
    pub node : Node T.Resource
    pub found : get_elem? nodes place ≡ some node
    pub waits : 0 < get_or in_degree (i + place) 0
    pub reported : hint ≡ T.id_hint node.resource

  pub stuck-cases :
      (i : ℕ) (nodes : Plan T.Resource) (in_degree : List ℕ)
      → Stuck nodes in_degree i (stuck T i nodes in_degree)
        ⊎ ((k : ℕ) → k < length nodes → get_or in_degree (i + k) 0 ≡ 0)
  unfolding stuck
  stuck-cases i [] in_degree = inr (λ k h. absurd (omega arith))
  stuck-cases i (node ∷ nodes) in_degree = elim (Bool-cases (ltb 0 (get_or in_degree i 0))) [
    | inl waits ↦ inl (record {
      place = 0;
      node = node;
      found = refl;
      waits = ground (arith, add-zero i);
      reported = rw waits;
    })
    | inr free ↦ rw (free) (elim (stuck-cases (suc i) nodes in_degree) [
      | inl s ↦ inl (record {
        place = suc s.place;
        node = s.node;
        found = s.found;
        waits = ground (arith, s.waits);
        reported = s.reported;
      })
      | inr all_free ↦ inr (free_cons i in_degree (length nodes) free all_free)
    ])
  ]
