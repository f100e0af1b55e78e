-- ===== src/Common/Results.antt =====
-- `Result<T, E>`, and stateful code that may fail: the state outlives an error.
use mathlib.Core.Path.{◌≡◌, refl, ◌∙◌}
use mathlib.Core.Logic.{◌⊎◌, inl, inr}

pub data Result (E A : Type 0) : Type 0 where
  ok : A → Result E A
  err : E → Result E A

abbrev pub Action : Type 0 → Type 0 → Type 0 → Type 0
Action S E A = S → Result E A × S

module _ {S E : Type 0} where
  abbrev pub pure : {A : Type 0} → A → Action S E A
  pure a s = (ok a, s)

  abbrev pub throw : {A : Type 0} → E → Action S E A
  throw e s = (err e, s)

  abbrev pub lift : {A : Type 0} → Result E A → Action S E A
  lift r s = (r, s)

  abbrev pub and_then : {A B : Type 0} → Result E A → (A → Action S E B) → Action S E B
  and_then (ok a) f = f a
  and_then (err e) f = throw e

  -- `?`: the rest runs in the state that the first part leaves, or not at all.
  infixl 5 ◌>>=◌ ◌>>◌
  abbrev pub ◌>>=◌ : {A B : Type 0} → Action S E A → (A → Action S E B) → Action S E B
  m >>= f = λ s. let (r, s') = m s in and_then r f s'

  abbrev pub ◌>>◌ : {B : Type 0} → Action S E (Unit {0}) → Action S E B → Action S E B
  m >> n = m >>= λ _. n

  -- The action leaves the state as it is, whether it fails or not.
  abbrev pub Keeps : {A : Type 0} → Action S E A → Type 0
  Keeps m = (s : S) → (m s).1 ≡ s

  pub and_then-Keeps :
      {A B : Type 0} (r : Result E A) (f : A → Action S E B)
      → ((a : A) → Keeps (f a))
      → Keeps (and_then r f)
  and_then-Keeps (ok a) f h = h a
  and_then-Keeps (err e) f h = λ s. refl

  pub >>=-Keeps :
      {A B : Type 0} (m : Action S E A) (f : A → Action S E B)
      → Keeps m
      → ((a : A) → Keeps (f a))
      → Keeps (m >>= f)
  >>=-Keeps m f h k s = and_then-Keeps (m s).0 f k (m s).1 ∙ h s

-- To split on a computed result and keep the equation.
pub Result-cases :
    {E A : Type 0} (r : Result E A) → ((a : A) × (r ≡ ok a)) ⊎ ((e : E) × (r ≡ err e))
Result-cases (ok a) = inl (a, refl)
Result-cases (err e) = inr (e, refl)

and_then-eq-ok :
    {S E A B : Type 0} (r : Result E A) (f : A → Action S E B) (t s' : S) {b : B}
    → and_then r f t ≡ (ok b, s')
    → (a : A) × (r ≡ ok a) × (f a t ≡ (ok b, s'))
and_then-eq-ok (ok a) f t s' e = (a, refl, e)
and_then-eq-ok (err x) f t s' e = cc

-- Inversion of a successful `?`, for proofs where the parts stay shut.
pub >>=-eq-ok :
    {S E A B : Type 0} (m : Action S E A) (f : A → Action S E B) (s s' : S) {b : B}
    → (m >>= f) s ≡ (ok b, s')
    → (a : A) × ((m s).0 ≡ ok a) × (f a (m s).1 ≡ (ok b, s'))
>>=-eq-ok m f s s' e = and_then-eq-ok (m s).0 f (m s).1 s' e
