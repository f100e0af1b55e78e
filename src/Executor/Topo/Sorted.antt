-- ===== src/Executor/Topo/Sorted.antt =====
-- From the graph of a plan to the final state of the loop.
use ansible_playbooks.Common.{
  ℕ, zero, suc, ◌+◌, ◌≤◌, ◌<◌, ◌≡◌, refl, sym, ◌∙◌, Bool, List, [], ◌∷◌, arith, length, get_or,
}
use ansible_playbooks.Common.{count, ltb, leb, ◌==◌, ◌&&◌, if◌then◌else◌, flatten, filterb}
use ansible_playbooks.Common.{inl, inr, Bool-cases, replicate, get_or-replicate, length-replicate}
use ansible_playbooks.Common.Results.{ok}
use native.Mathlib.Nat.{zero-add}
use ansible_playbooks.Resource.{Trait}
use ansible_playbooks.Plan.{Plan, len}
use ansible_playbooks.Executor.Topo.{Graph, Loop, range, start, add_nodes, sort}
use ansible_playbooks.Executor.Topo.Edges.{Sized, degree, successors_of}
use ansible_playbooks.Executor.Topo.Nodes.{deps_at, add_nodes-AddsAll}
use ansible_playbooks.Executor.Topo.Pending.{pending, pending-nil}
use ansible_playbooks.Executor.Topo.Rounds.{LoopInv, rounds-LoopInv, rounds_end, IsLayered}

count-filterb-range :
    (p : ℕ → Bool) (j k a : ℕ)
    → count j (filterb p (range a k)) ≡ (if (leb a j && ltb j (a + k)) && p j then 1 else 0)
count-filterb-range p j zero a = ground arith
count-filterb-range p j (suc k) a = elim (Bool-cases (j == a)) [
  | inl same ↦
      let e : j ≡ a = ground arith in rw e (ground (arith, count-filterb-range p a k (suc a)))
  | inr other ↦ ground (arith, count-filterb-range p j k (suc a))
]

abbrev pub empty_graph : ℕ → Graph
empty_graph n = record { in_degree = replicate n 0; successors = replicate n [] }

empty_graph-Sized : (n : ℕ) → Sized n (empty_graph n)
empty_graph-Sized n = record { degrees = length-replicate n 0; edges = length-replicate n [] }

module _ {S : Type 0} (T : Trait S) (plan : Plan T.Resource) where
  abbrev pub D : ℕ → List ℕ
  D = deps_at T plan

  -- The graph's tables are the plan's dependencies and their transpose.
  pub record IsGraph (g : Graph) : Type 0 where
    pub in_range : (j d : ℕ) → 0 < count d (D j) → d < len plan
    pub degrees : (j : ℕ) → degree g j ≡ length (D j)
    pub edges : (j d : ℕ) → count j (successors_of g d) ≡ count d (D j)

  pub add_nodes-IsGraph :
      (g : Graph) → add_nodes T (len plan) 0 plan (empty_graph (len plan)) ≡ ok g → IsGraph g
  add_nodes-IsGraph g e =
      let n : ℕ = len plan in
      let all =
        add_nodes-AddsAll T n 0 plan (empty_graph n) g (omega arith) (empty_graph-Sized n) e in
      record {
        in_range = all.in_range;
        degrees = λ j. ground (arith, all.degrees j, get_or-replicate {A = ℕ} n j 0, zero-add j);
        edges =
            λ j d. ground (arith, all.edges j d, get_or-replicate {A = List ℕ} n d [], zero-add j);
      }

  deps_at-outside : (nodes : Plan T.Resource) (j : ℕ) → length nodes ≤ j → deps_at T nodes j ≡ []
  deps_at-outside [] j h = refl
  deps_at-outside (node ∷ nodes) zero h = absurd (omega arith)
  deps_at-outside (node ∷ nodes) (suc j) h = deps_at-outside nodes j (omega arith)

  -- What is known of the loop when it has ended: no node waits, and `levels` holds the finished.
  pub record IsFinal (l : Loop) : Type 0 where
    pub degrees : (j : ℕ) → get_or l.in_degree j 0 ≡ pending (flatten l.levels) (D j)
    pub once :
        (j : ℕ)
        → count j (flatten l.levels)
          ≡ (if ltb j (len plan) && get_or l.in_degree j 0 == 0 then 1 else 0)
    pub layered : IsLayered D [] l.levels
    pub counted : l.visited ≡ length (flatten l.levels)

  module _ (g : Graph) (graph : IsGraph g) where
    start-LoopInv :
        LoopInv (len plan) D g.successors (deps_at-outside plan) graph.edges (start (len plan) g)
    unfolding start
    start-LoopInv = record {
      inv = record {
        degrees = λ j. graph.degrees j ∙ sym (pending-nil (D j));
        once = λ j. ground (
          arith,
          count-filterb-range (λ i. get_or g.in_degree i 0 == 0) j (len plan) 0,
          zero-add (len plan),
        );
      };
      layered = tt;
      counted = refl;
    }

    pub sort-IsFinal : IsFinal (sort T plan g)
    unfolding sort start
    sort-IsFinal =
        let n : ℕ = len plan in
        let h =
          rounds-LoopInv n D g.successors (deps_at-outside plan) graph.edges n (start n g)
            start-LoopInv in
        let over =
          rounds_end n D g.successors (deps_at-outside plan) graph.edges n (start n g) start-LoopInv
            (omega arith) in
        record {
          degrees = h.inv.degrees;
          once = λ j. ground (arith, h.inv.once j, over);
          layered = h.layered;
          counted = h.counted;
        }
