-- ===== src/Executor/Topo/Pending.antt =====
-- Dependencies that are not done yet, and the inner loop that counts them down.
use ansible_playbooks.Common.{
  ℕ, zero, suc, ◌+◌, ◌-◌, ◌≤◌, ◌<◌, ◌≡◌, refl, List, [], ◌∷◌, ◌++◌, arith, length, get_or, set,
}
use ansible_playbooks.Common.{count, ltb, ◌==◌, ◌&&◌, if◌then◌else◌, inl, inr, Bool-cases}
use ansible_playbooks.Common.{count-append, get_or-set}
use ansible_playbooks.Executor.Topo.{relax}

-- How many of `ds` do not stand in `done`.
abbrev pub pending : List ℕ → List ℕ → ℕ
pending done [] = 0
pending done (d ∷ ds) = (if count d done == 0 then 1 else 0) + pending done ds

pub pending-nil : (ds : List ℕ) → pending [] ds ≡ length ds
pending-nil [] = refl
pending-nil (d ∷ ds) = omega (arith, pending-nil ds)

pub count_done_of_pending :
    (done ds : List ℕ) (d : ℕ) → pending done ds ≡ 0 → 0 < count d ds → 0 < count d done
count_done_of_pending done [] d none_left h = absurd (omega arith)
count_done_of_pending done (x ∷ ds) d none_left h = elim (Bool-cases (d == x)) [
  | inl same ↦ let e : d ≡ x = ground arith in rw e (ground arith)
  | inr other ↦ count_done_of_pending done ds d (ground arith) (ground arith)
]

pub pending_of_count_done :
    (done ds : List ℕ) → ((d : ℕ) → 0 < count d ds → 0 < count d done) → pending done ds ≡ 0
pending_of_count_done done [] h = refl
pending_of_count_done done (x ∷ ds) h =
    ground
      (arith, h x, pending_of_count_done done ds (λ d (m : 0 < count d ds). h d (ground arith)))

-- A node that becomes done is taken off, as often as it is listed.
pub pending-snoc :
    (done : List ℕ) (i : ℕ) (ds : List ℕ)
    → count i done ≡ 0
    → pending (done ++ (i ∷ [])) ds + count i ds ≡ pending done ds
pending-snoc done i [] fresh = refl
pending-snoc done i (d ∷ ds) fresh = elim (Bool-cases (d == i)) [
  | inl same ↦
      let e : d ≡ i = ground arith in
      rw e (ground (arith, pending-snoc done i ds, count-append i done (i ∷ [])))
  | inr other ↦ ground (arith, pending-snoc done i ds, count-append d done (i ∷ []))
]

lt-length_of_get_or : (xs : List ℕ) (j : ℕ) → 0 < get_or xs j 0 → j < length xs
lt-length_of_get_or [] j h = elim h [ ]
lt-length_of_get_or (x ∷ xs) zero h = omega arith
lt-length_of_get_or (x ∷ xs) (suc j) h = omega (arith, lt-length_of_get_or xs j h)

-- The degrees that `relax` leaves, and what it appends to `next`. No subtraction goes below 0.
pub record Relaxed (js in_degree next in_degree' next' : List ℕ) : Type 0 where
  pub degrees : (j : ℕ) → get_or in_degree' j 0 + count j js ≡ get_or in_degree j 0
  pub queued :
      (j : ℕ)
      → count j next'
        ≡ count j next
          + (if ltb 0 (get_or in_degree j 0) && get_or in_degree' j 0 == 0 then 1 else 0)

pub relax-Relaxed :
    (js in_degree next : List ℕ)
    → ((j : ℕ) → count j js ≤ get_or in_degree j 0)
    → Relaxed js in_degree next (relax js in_degree next).0 (relax js in_degree next).1
unfolding relax
relax-Relaxed [] in_degree next enough = record {
  degrees = λ j. omega arith;
  queued = λ j. ground arith;
}
relax-Relaxed (k ∷ js) in_degree next enough =
    let d : ℕ = get_or in_degree k 0 - 1 in
    let in_degree' : List ℕ = set in_degree k d in
    let next' : List ℕ = if d == 0 then next ++ (k ∷ []) else next in
    let inside : k < length in_degree =
      lt-length_of_get_or in_degree k (ground (arith, enough k)) in
    let rest =
      relax-Relaxed js in_degree' next'
        (λ j. ground (arith, enough j, enough k, get_or-set in_degree k j d 0)) in
    record {
      degrees = λ j. ground (arith, enough k, rest.degrees j, get_or-set in_degree k j d 0);
      queued = λ j. ground (
        arith,
        enough k,
        rest.degrees j,
        rest.queued j,
        get_or-set in_degree k j d 0,
        count-append j next (k ∷ []),
      );
    }
