-- ===== src/Common/Text/Decimal.antt =====
-- Numbers in decimal, printed and read, and texts that a separator splits.
use ansible_playbooks.Common.{
  ℕ, zero, suc, ◌+◌, ◌*◌, ◌/◌, ◌%◌, ◌<◌, ◌-◌, ◌≡◌, refl, ◌∙◌, ap, String, ◌<>◌, Bool, true, false,
  some, ◌∷◌, arith, inl, inr, Bool-cases, ltb, leb, ◌&&◌, ◌==◌, ◌^◌,
}
use Prim.Native.Char.{Char, code}
use text.Mathlib.TextLemmas.{cons-append, nil-append}
use ansible_playbooks.Common.Text.{
  digits_value, digit, decimal_on, decimal, parse_u32, is_empty_text, split_by, unsigned_digits,
  fits_u32,
}

digits_value-append :
    (s t : String) (acc v : ℕ)
    → digits_value acc s ≡ some v
    → digits_value acc (s <> t) ≡ digits_value v t
unfolding digits_value
digits_value-append String.[] t acc v e =
    rw nil-append (let same : acc ≡ v = ground arith in ap (λ a. digits_value a t) same)
digits_value-append (String.◌∷◌ c s) t acc v e =
    rw cons-append (ground (arith, digits_value-append s t (acc * 10 + (code c - 48)) v))

digit-value : (d acc : ℕ) → d < 10 → digits_value acc (digit d) ≡ some (acc * 10 + d)
unfolding digits_value
digit-value zero acc lt = refl
digit-value (suc zero) acc lt = refl
digit-value (suc (suc zero)) acc lt = refl
digit-value (suc (suc (suc zero))) acc lt = refl
digit-value (suc (suc (suc (suc zero)))) acc lt = refl
digit-value (suc (suc (suc (suc (suc zero))))) acc lt = refl
digit-value (suc (suc (suc (suc (suc (suc zero)))))) acc lt = refl
digit-value (suc (suc (suc (suc (suc (suc (suc zero))))))) acc lt = refl
digit-value (suc (suc (suc (suc (suc (suc (suc (suc zero)))))))) acc lt = refl
digit-value (suc (suc (suc (suc (suc (suc (suc (suc (suc zero))))))))) acc lt = refl
digit-value (suc (suc (suc (suc (suc (suc (suc (suc (suc (suc d)))))))))) acc lt =
    absurd (omega arith)

decimal_on-value : (fuel n : ℕ) → n < fuel → digits_value 0 (decimal_on fuel n) ≡ some n
unfolding decimal_on
decimal_on-value zero n lt = absurd (omega arith)
decimal_on-value (suc fuel) n lt = elim (Bool-cases (ltb n 10)) [
  | inl small ↦
      rw (small, decimal_on) (digit-value n 0 (ground (arith, small)) ∙ ap some (omega arith))
  | inr large ↦
      let front = decimal_on-value fuel (n / 10) (ground (arith, large)) in
      rw (large, decimal_on)
        (digits_value-append (decimal_on fuel (n / 10)) (digit (n % 10)) 0 (n / 10) front
          ∙ digit-value (n % 10) (n / 10) (omega arith)
          ∙ ap some (omega arith))
]

digit-nonempty : (d : ℕ) → is_empty_text (digit d) ≡ false
digit-nonempty zero = refl
digit-nonempty (suc zero) = refl
digit-nonempty (suc (suc zero)) = refl
digit-nonempty (suc (suc (suc zero))) = refl
digit-nonempty (suc (suc (suc (suc zero)))) = refl
digit-nonempty (suc (suc (suc (suc (suc zero))))) = refl
digit-nonempty (suc (suc (suc (suc (suc (suc zero)))))) = refl
digit-nonempty (suc (suc (suc (suc (suc (suc (suc zero))))))) = refl
digit-nonempty (suc (suc (suc (suc (suc (suc (suc (suc zero)))))))) = refl
digit-nonempty (suc (suc (suc (suc (suc (suc (suc (suc (suc d))))))))) = refl

append-nonempty : (s t : String) → is_empty_text s ≡ false → is_empty_text (s <> t) ≡ false
append-nonempty String.[] t full = cc
append-nonempty (String.◌∷◌ c s) t full = rw cons-append refl

decimal_on-nonempty : (fuel n : ℕ) → n < fuel → is_empty_text (decimal_on fuel n) ≡ false
unfolding decimal_on
decimal_on-nonempty zero n lt = absurd (omega arith)
decimal_on-nonempty (suc fuel) n lt = elim (Bool-cases (ltb n 10)) [
  | inl small ↦ rw (small, decimal_on) (digit-nonempty n)
  | inr large ↦
      let front = decimal_on-nonempty fuel (n / 10) (ground (arith, large)) in
      rw (large, decimal_on) (append-nonempty (decimal_on fuel (n / 10)) (digit (n % 10)) front)
]

-- A text that is not empty and has a value has no sign.
unsigned_digits-value :
    (s : String) (v : ℕ)
    → is_empty_text s ≡ false
    → digits_value 0 s ≡ some v
    → unsigned_digits s ≡ some v
unfolding digits_value
unsigned_digits-value String.[] v full e = cc
unsigned_digits-value (String.◌∷◌ c s) v full e = ground (arith, e)

-- `str::parse::<u32>` reads what `Display` prints of a number below 2³².
pub parse_u32-decimal : (n : ℕ) → n < 2 ^ 32 → parse_u32 (decimal n) ≡ some n
unfolding parse_u32 decimal
parse_u32-decimal n lt =
    let value = decimal_on-value (suc n) n (omega arith) in
    let read =
      unsigned_digits-value (decimal_on (suc n) n) n (decimal_on-nonempty (suc n) n (omega arith))
        value in
    ap fits_u32 read ∙ ground arith

-- No character passes the test.
abbrev pub Lacks : (ℕ → Bool) → String → Type 0
Lacks at String.[] = Unit {0}
Lacks at (String.◌∷◌ c s) = (at (code c) ≡ false) × Lacks at s

pub split_by-piece :
    (at : ℕ → Bool) (s t : String) (c : Char)
    → Lacks at s
    → at (code c) ≡ true
    → split_by at (s <> String.◌∷◌ c t) ≡ s ∷ split_by at t
unfolding split_by
split_by-piece at String.[] t c lacks stop = rw nil-append (ground (arith, stop))
split_by-piece at (String.◌∷◌ d s) t c lacks stop =
    rw cons-append (ground (arith, lacks.0, split_by-piece at s t c lacks.1 stop))

digits_value-Lacks :
    (k : ℕ)
    → (leb 48 k && leb k 57) ≡ false
    → (s : String) (acc v : ℕ) → digits_value acc s ≡ some v
    → Lacks (λ c. c == k) s
unfolding digits_value
digits_value-Lacks k outside String.[] acc v e = tt
digits_value-Lacks k outside (String.◌∷◌ c s) acc v e = (
  ground (arith, e, outside),
  digits_value-Lacks k outside s (acc * 10 + (code c - 48)) v (ground (arith, e)),
)

-- A number has no character that is not a digit.
pub decimal-Lacks :
    (k : ℕ) → (leb 48 k && leb k 57) ≡ false → (n : ℕ) → Lacks (λ c. c == k) (decimal n)
unfolding decimal
decimal-Lacks k outside n =
    digits_value-Lacks k outside _ 0 n (decimal_on-value (suc n) n (omega arith))

pub split_by-colon :
    (s t : String)
    → Lacks (λ c. c == 58) s
    → split_by (λ c. c == 58) (s <> (":" <> t)) ≡ s ∷ split_by (λ c. c == 58) t
split_by-colon s t lacks =
    ap (λ u. split_by (λ c. c == 58) (s <> u))
      (cons-append ":" "" t ∙ ap (λ u. String.◌∷◌ ":" u) (nil-append t))
    ∙ split_by-piece (λ c. c == 58) s t ":" lacks refl
