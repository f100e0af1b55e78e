-- ===== src/Common/Count.antt =====
-- How often a number stands in a list: membership, absence and repetition in one notion.
use Prim.Native.Nat.{ℕ, zero, suc, ◌+◌, ◌≤◌, ◌<◌}
use mathlib.Core.Path.{◌≡◌, refl}
use mathlib.Core.List.{List, [], ◌∷◌, ◌++◌}
use native.Mathlib.Omega.{arith}
use mathlib.Core.Logic.{inl, inr}
use ansible_playbooks.Common.Tests.{◌==◌, if◌then◌else◌, Bool-cases}
use ansible_playbooks.Common.Lists.{length}

abbrev pub count : ℕ → List ℕ → ℕ
count a [] = 0
count a (x ∷ xs) = (if a == x then 1 else 0) + count a xs

pub count-append :
    (j : ℕ) (front back : List ℕ) → count j (front ++ back) ≡ count j front + count j back
count-append j [] back = omega arith
count-append j (k ∷ front) back = omega (arith, count-append j front back)

abbrev pub sum_below : ℕ → (ℕ → ℕ) → ℕ
sum_below zero f = 0
sum_below (suc n) f = f n + sum_below n f

pub sum_below-add :
    (n : ℕ) (f g : ℕ → ℕ) → sum_below n (λ j. f j + g j) ≡ sum_below n f + sum_below n g
sum_below-add zero f g = refl
sum_below-add (suc n) f g = omega (arith, sum_below-add n f g)

sum_below-zero : (n : ℕ) → sum_below n (λ j. 0) ≡ 0
sum_below-zero zero = refl
sum_below-zero (suc n) = omega (arith, sum_below-zero n)

sum_below-indicator_out : (n x : ℕ) → n ≤ x → sum_below n (λ j. if j == x then 1 else 0) ≡ 0
sum_below-indicator_out zero x h = refl
sum_below-indicator_out (suc n) x h = ground (arith, sum_below-indicator_out n x)

sum_below-indicator : (n x : ℕ) → x < n → sum_below n (λ j. if j == x then 1 else 0) ≡ 1
sum_below-indicator zero x h = elim h [ ]
sum_below-indicator (suc n) x h =
    ground (arith, sum_below-indicator n x, sum_below-indicator_out n x)

-- Counting each number below `n` counts the whole list, if no larger number stands in it.
pub sum_below-count :
    (n : ℕ) (xs : List ℕ)
    → ((j : ℕ) → n ≤ j → count j xs ≡ 0)
    → sum_below n (λ j. count j xs) ≡ length xs
sum_below-count n [] h = sum_below-zero n
sum_below-count n (x ∷ xs) h =
    let split = sum_below-add n (λ j. if j == x then 1 else 0) (λ j. count j xs) in
    let rest = sum_below-count n xs (λ j le. ground (arith, h j)) in
    let below : x < n = ground (arith, h x) in
    omega (arith, split, rest, sum_below-indicator n x below)

pub sum_below-le : (n : ℕ) (f : ℕ → ℕ) → ((j : ℕ) → f j ≤ 1) → sum_below n f ≤ n
sum_below-le zero f h = omega arith
sum_below-le (suc n) f h = omega (arith, h n, sum_below-le n f h)

pub sum_below-full :
    (n : ℕ) (f : ℕ → ℕ) → ((j : ℕ) → f j ≤ 1) → sum_below n f ≡ n → (j : ℕ) → j < n → f j ≡ 1
sum_below-full zero f h full j lt = elim lt [ ]
sum_below-full (suc n) f h full j lt = elim (Bool-cases (j == n)) [
  | inl last ↦ let same : j ≡ n = ground arith in rw same (omega (arith, h n, sum_below-le n f h))
  | inr before ↦ sum_below-full n f h (omega (arith, h n, sum_below-le n f h)) j (ground arith)
]

pub sum_below-all_one : (n : ℕ) (f : ℕ → ℕ) → ((j : ℕ) → j < n → f j ≡ 1) → sum_below n f ≡ n
sum_below-all_one zero f h = refl
sum_below-all_one (suc n) f h =
    omega (arith, h n (omega arith), sum_below-all_one n f (λ j lt. h j (omega arith)))
