-- ===== src/Bundles/Registers.antt =====
-- Which resources a `build` in src/bundles/ adds to the plan.
use ansible_playbooks.Common.{ℕ, ◌≤◌, ◌≡◌, refl, List, [], ◌∷◌, ◌++◌, arith, get_elem?, some}
use ansible_playbooks.Resource.Ids.{ResourceId}
use ansible_playbooks.Plan.{Node, Plan, len}
use ansible_playbooks.Plan
use ansible_playbooks.Plan.Laws.{add-IsNumbered}
use ansible_playbooks.Backends.Registry.{Resource}
use ansible_playbooks.Bundles.{Context, Build, pure, ◌>>=◌, add, each}
use ansible_playbooks.Bundles.Fits.{Fits, IsSound, Grown, AreIds, >>=-Fits, pure-Fits, rounds-Fits}

-- The resource is in the plan.
pub record Has (r : Resource) (c : Context) : Type 0 where
  pub place : ResourceId
  pub node : Node Resource
  pub found : get_elem? c.plan place ≡ some node
  pub same : node.resource ≡ r

pub Has-Grown : {r : Resource} {c c' : Context} → Has r c → Grown c c' → Has r c'
Has-Grown h g = record {
  place = h.place;
  node = h.node;
  found = g.nodes h.place h.node h.found;
  same = h.same;
}

-- From a sound context with `n` nodes at least, the action adds the resource.
pub record Registers {A : Type 0} (r : Resource) (n : ℕ) (m : Build A) : Type 0 where
  pub added : (c : Context) → IsSound c → n ≤ len c.plan → Has r (m c).1

pub add-Registers : (r : Resource) {n : ℕ} → Registers r n (add r)
unfolding add Plan.add
add-Registers r = record {
  added = λ c sound le.
      let laws = add-IsNumbered c.plan r sound.numbered in
      record {
        place = len c.plan;
        node = record { id = len c.plan; resource = r };
        found = ground (arith, laws.3 (len c.plan));
        same = refl;
      };
}

module _ {A B : Type 0} {P : A → ℕ → Type 0} {r : Resource} {n : ℕ} {m : Build A} {f : A → Build B}
    (fits : Fits P n m) where
  -- What the first part adds to the plan, the second keeps.
  pub >>=-Has :
      {Q : B → ℕ → Type 0} (c : Context)
      → IsSound c
      → n ≤ len c.plan
      → Has r (m c).1
      → ((a : A) (k : ℕ) → n ≤ k → P a k → Fits Q k (f a))
      → Has r ((m >>= f) c).1
  unfolding ◌>>=◌
  >>=-Has c sound le h rest =
      let next =
        rest (m c).0 (len (m c).1.plan) (omega (arith, (fits.grown c sound le).longer))
          (fits.result c sound le) in
      Has-Grown h (next.grown (m c).1 (fits.sound c sound le) (omega arith))

  pub >>=-Registers_first :
      {Q : B → ℕ → Type 0}
      → Registers r n m
      → ((a : A) (k : ℕ) → n ≤ k → P a k → Fits Q k (f a))
      → Registers r n (m >>= f)
  >>=-Registers_first h rest = record {
    added = λ c sound le. >>=-Has c sound le (h.added c sound le) rest;
  }

  pub >>=-Registers :
      ((a : A) (k : ℕ) → n ≤ k → P a k → Registers r k (f a)) → Registers r n (m >>= f)
  unfolding ◌>>=◌
  >>=-Registers rest = record {
    added = λ c sound le.
        (rest (m c).0 (len (m c).1.plan) (omega (arith, (fits.grown c sound le).longer))
            (fits.result c sound le)).added
          (m c).1 (fits.sound c sound le) (omega arith);
  }

pub gather-Fits :
    {B : Type 0} {P : List B → ℕ → Type 0} {n : ℕ} {m : Build (List B)} (b : B)
    → Fits P n m
    → Fits (λ bs k. Unit {0}) n (m >>= λ bs. pure (b ∷ bs))
gather-Fits b h = >>=-Fits h λ bs k le known. pure-Fits (b ∷ bs) λ j more. tt

-- A loop whose round for some `x` adds the resource adds it.
pub each-Registers :
    {A : Type 0} {r : Resource} {n : ℕ} (f : A → Build (List ResourceId)) (xs ys : List A) (x : A)
    → ((y : A) (k : ℕ) → n ≤ k → Fits AreIds k (f y))
    → ((k : ℕ) → n ≤ k → Registers r k (f x))
    → Registers r n (each f (xs ++ (x ∷ ys)))
unfolding each
each-Registers f [] ys x fits h =
    >>=-Registers_first {f = λ ids. each f ys >>= λ rounds. pure (ids ∷ rounds)}
      (fits x _ (omega arith)) (h _ (omega arith))
      λ ids k le known. gather-Fits ids (rounds-Fits f ys λ y j more. fits y j (omega arith))
each-Registers f (y ∷ xs) ys x fits h =
    >>=-Registers {f = λ ids. each f (xs ++ (x ∷ ys)) >>= λ rounds. pure (ids ∷ rounds)}
      (fits y _ (omega arith))
      λ ids k le known.
        >>=-Registers_first {f = λ rounds. pure (ids ∷ rounds)}
          (rounds-Fits f (xs ++ (x ∷ ys)) λ z j more. fits z j (omega arith))
          (each-Registers f xs ys x (λ z j more. fits z j (omega arith))
            (λ j more. h j (omega arith)))
          λ rounds j more all. pure-Fits {P = λ rs j. Unit {0}} (ids ∷ rounds) λ i most. tt
