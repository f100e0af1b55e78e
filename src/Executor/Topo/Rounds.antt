-- ===== src/Executor/Topo/Rounds.antt =====
-- The invariant of the `while` loop of `compute_topo_levels`, through one level and all rounds.
use ansible_playbooks.Common.{
  ℕ, zero, suc, ◌+◌, ◌≤◌, ◌<◌, ◌≡◌, ◌∙◌, ap, List, [], ◌∷◌, ◌++◌, arith, length, get_or,
}
use ansible_playbooks.Common.{count, ltb, ◌==◌, ◌&&◌, if◌then◌else◌, flatten, inl, inr, List-cases}
use ansible_playbooks.Common.{count-append, length-append, sum_below-count, sum_below-le}
use mathlib.Core.List.{append_assoc, append-nil}
use ansible_playbooks.Executor.Topo.{relax, visit_level, Loop, round, rounds}
use ansible_playbooks.Executor.Topo.Pending.{
  pending, pending-snoc, count_done_of_pending, relax-Relaxed,
}

-- Each level depends only on `seen` and on the levels before it.
abbrev pub IsLayered : (ℕ → List ℕ) → List ℕ → List (List ℕ) → Type 0
IsLayered D seen [] = Unit {0}
IsLayered D seen (level ∷ levels) =
    ((j d : ℕ) → 0 < count j level → 0 < count d (D j) → 0 < count d seen)
    × IsLayered D (seen ++ level) levels

IsLayered-snoc :
    (D : ℕ → List ℕ) (seen : List ℕ) (levels : List (List ℕ)) (level : List ℕ)
    → IsLayered D seen levels
    → ((j d : ℕ) → 0 < count j level → 0 < count d (D j) → 0 < count d (seen ++ flatten levels))
    → IsLayered D seen (levels ++ (level ∷ []))
IsLayered-snoc D seen [] level h new = (rw append-nil at new, tt)
IsLayered-snoc D seen (l ∷ levels) level h new =
    (h.0, IsLayered-snoc D (seen ++ l) levels level h.1 (rw append_assoc new))

flatten-snoc :
    (levels : List (List ℕ)) (level : List ℕ)
    → flatten (levels ++ (level ∷ [])) ≡ flatten levels ++ level
flatten-snoc [] level = append-nil level
flatten-snoc (l ∷ levels) level = ap (λ xs. l ++ xs) (flatten-snoc levels level) ∙ rw append_assoc

-- `D` gives the dependencies of `n` nodes, and `successors` is its transpose.
module _ (n : ℕ) (D : ℕ → List ℕ) (successors : List (List ℕ))
    (outside : (j : ℕ) → n ≤ j → D j ≡ [])
    (edges : (j d : ℕ) → count j (get_or successors d []) ≡ count d (D j)) where
  -- The nodes of `done` are finished. `current` and `next` wait, and have no pending dependency.
  pub record Inv (done current next in_degree : List ℕ) : Type 0 where
    pub degrees : (j : ℕ) → get_or in_degree j 0 ≡ pending done (D j)
    pub once :
        (j : ℕ)
        → count j done + (count j current + count j next)
          ≡ (if ltb j n && get_or in_degree j 0 == 0 then 1 else 0)

  visit-Inv :
      (done is next in_degree : List ℕ) (i : ℕ)
      → Inv done (i ∷ is) next in_degree
      → let (in_degree', next') = relax (get_or successors i []) in_degree next in
        Inv (done ++ (i ∷ [])) is next' in_degree'
  visit-Inv done is next in_degree i inv =
      let js : List ℕ = get_or successors i [] in
      let fresh : count i done ≡ 0 = ground (arith, inv.once i) in
      let relaxed =
        relax-Relaxed js in_degree next
          (λ j. omega (arith, inv.degrees j, pending-snoc done i (D j) fresh, edges j i)) in
      let left : (j : ℕ)
          → get_or (relax js in_degree next).0 j 0 ≡ pending (done ++ (i ∷ [])) (D j) =
        λ j.
          omega
            (arith, relaxed.degrees j, inv.degrees j, pending-snoc done i (D j) fresh, edges j i) in
      record {
        degrees = left;
        once = λ j. ground (
          arith,
          inv.once j,
          relaxed.degrees j,
          relaxed.queued j,
          inv.degrees j,
          outside j,
          edges j i,
          count-append j done (i ∷ []),
        );
      }

  visit_level-Inv :
      (current done next in_degree : List ℕ)
      → Inv done current next in_degree
      → let (in_degree', next') = visit_level successors current in_degree next in
        Inv (done ++ current) [] next' in_degree'
  unfolding visit_level
  visit_level-Inv [] done next in_degree inv = rw append-nil inv
  visit_level-Inv (i ∷ is) done next in_degree inv =
      let (in_degree', next') = relax (get_or successors i []) in_degree next in
      rw (← append_assoc done (i ∷ []) is) (
        visit_level-Inv is (done ++ (i ∷ [])) next' in_degree'
          (visit-Inv done is next in_degree i inv))

  pub record LoopInv (l : Loop) : Type 0 where
    pub inv : Inv (flatten l.levels) l.current [] l.in_degree
    pub layered : IsLayered D [] l.levels
    pub counted : l.visited ≡ length (flatten l.levels)

  next→current :
      (done next in_degree : List ℕ) → Inv done [] next in_degree → Inv done next [] in_degree
  next→current done next in_degree inv = record {
    degrees = inv.degrees;
    once = λ j. omega (arith, inv.once j);
  }

  -- A waiting node has all of its dependencies among the finished ones.
  ready_of_waiting :
      (done current in_degree : List ℕ)
      → Inv done current [] in_degree
      → (j d : ℕ) → 0 < count j current
      → 0 < count d (D j)
      → 0 < count d done
  ready_of_waiting done current in_degree inv j d waits dep =
      count_done_of_pending done (D j) d (ground (arith, inv.once j, inv.degrees j)) dep

  round-LoopInv : (l : Loop) → LoopInv l → LoopInv (round successors l)
  unfolding round
  round-LoopInv l h =
      let done : List ℕ = flatten l.levels in
      let (in_degree', next') = visit_level successors l.current l.in_degree [] in
      record {
        inv = rw (flatten-snoc l.levels l.current) (
            next→current (done ++ l.current) next' in_degree'
              (visit_level-Inv l.current done [] l.in_degree h.inv));
        layered =
            IsLayered-snoc D [] l.levels l.current h.layered
              (ready_of_waiting done l.current l.in_degree h.inv);
        counted =
            rw (flatten-snoc l.levels l.current)
              (omega (arith, h.counted, length-append done l.current));
      }

  -- The finished and the waiting nodes are different numbers below `n`.
  length-done-le :
      (done current in_degree : List ℕ)
      → Inv done current [] in_degree
      → length done + length current ≤ n
  length-done-le done current in_degree inv =
      let count_all : (j : ℕ) → count j (done ++ current) ≡ count j done + count j current =
        λ j. count-append j done current in
      let total =
        sum_below-count n (done ++ current) (λ j le. ground (arith, count_all j, inv.once j)) in
      let bound =
        sum_below-le n (λ j. count j (done ++ current))
          (λ j. ground (arith, count_all j, inv.once j)) in
      omega (arith, total, bound, length-append done current)

  visited-round : (l : Loop) → 0 < length l.current → l.visited + 1 ≤ (round successors l).visited
  unfolding round
  visited-round l h = omega arith

  pub rounds-LoopInv : (fuel : ℕ) (l : Loop) → LoopInv l → LoopInv (rounds fuel successors l)
  unfolding rounds
  rounds-LoopInv zero l h = h
  rounds-LoopInv (suc fuel) l h = elim (List-cases l.current) [
    | inl over ↦ rw (over, rounds) h
    | inr (i, is, more) ↦
        rw (more, rounds) (rounds-LoopInv fuel (round successors l) (round-LoopInv l h))
  ]

  -- With one unit of fuel for each node that is left, the loop ends by its test.
  pub rounds_end :
      (fuel : ℕ) (l : Loop)
      → LoopInv l
      → n ≤ l.visited + fuel
      → (rounds fuel successors l).current ≡ []
  unfolding rounds
  rounds_end zero l h enough = elim (List-cases l.current) [
    | inl over ↦ over
    | inr (i, is, more) ↦ absurd (
        omega (
          arith,
          h.counted,
          ap length more,
          length-done-le (flatten l.levels) l.current l.in_degree h.inv,
        ))
  ]
  rounds_end (suc fuel) l h enough = elim (List-cases l.current) [
    | inl over ↦ rw (over, rounds) over
    | inr (i, is, more) ↦
        let progress : l.visited + 1 ≤ (round successors l).visited =
          visited-round l (omega (arith, ap length more)) in
        rw (more, rounds)
          (rounds_end fuel (round successors l) (round-LoopInv l h) (omega (arith, progress)))
  ]
