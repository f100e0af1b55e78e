-- ===== src/Backends/AptPackage/Manager.antt =====
-- dpkg-query as src/backends/apt_package.rs relies on them.
use ansible_playbooks.Common.{
  ◌≡◌, refl, ap, String, Bool, true, false, List, [], ◌∷◌, if◌then◌else◌, All,
}
use ansible_playbooks.Common.Results.{Result, ok, err, Action, pure, throw, and_then}
use ansible_playbooks.Error.{Cause, BackendError}
use ansible_playbooks.Host.{Host, Output, command, foreign_error}
use ansible_playbooks.Backends.AptPackage.Listing.{Entry, print, IsPlainEntry}

-- The database of dpkg, which dpkg-query prints in the format that it is given.
pub record IsDpkg (H : Host) : Type 0 where
  pub database : H.State → List Entry
  pub plain : (s : H.State) → All IsPlainEntry (database s)
  pub listed :
      (s : H.State) (output : Output)
      → (H.spawn (command ("dpkg-query" ∷ "-W" ∷ "-f=${Package}\t${db:Status-Abbrev}\n" ∷ [])) s).0
        ≡ ok output
      → output.success ≡ true
      → output.stdout ≡ print (database s)

-- An action whose result is known.
pub with_state :
    {S E A : Type 0} (m : Action S E A) (s : S) {a : A} → (m s).0 ≡ ok a → m s ≡ (ok a, (m s).1)
with_state m s e = ap (λ r. (r, (m s).1)) e

-- A test that chooses between a result and an error.
choose-eq-ok :
    {S E A : Type 0} (b : Bool) (x a : A) (y : E) (t s' : S)
    → (if b then pure x else throw y) t ≡ (ok a, s')
    → (b ≡ true) × (x ≡ a) × (t ≡ s')
choose-eq-ok true x a y t s' e = (refl, cc, cc)
choose-eq-ok false x a y t s' e = cc

pub Output-eq-ok :
    {S A : Type 0} (r : Result Cause Output) (backend message : String) (f : Output → A)
    (bad : Output → BackendError) (t s' : S) (a : A)
    → and_then
        (foreign_error backend message r)
        (λ o. if o.success then pure (f o) else throw (bad o))
        t
      ≡ (ok a, s')
    → (o : Output) × (r ≡ ok o) × (o.success ≡ true) × (f o ≡ a) × (t ≡ s')
Output-eq-ok (ok o) backend message f bad t s' a e =
    let chosen = choose-eq-ok o.success (f o) a (bad o) t s' e in
    (o, refl, chosen.0, chosen.1, chosen.2)
Output-eq-ok (err x) backend message f bad t s' a e = cc
