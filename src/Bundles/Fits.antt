-- ===== src/Bundles/Fits.antt =====
-- The invariant of the `Context` in src/bundles.rs, and the rules by which a `build` is seen to
-- keep it.
pub mod Apt
pub mod Users
pub mod Packages
pub mod Machines
pub mod Containers
pub mod Metas
use ansible_playbooks.Common.{
  Option-cases, ℕ, zero, suc, ◌+◌, ◌≤◌, ◌<◌, ◌≡◌, refl, sym, subst, ◌∙◌, String, Bool, true, false,
  Option, none, some, List, [], ◌∷◌, ◌++◌, arith, length, get_elem?, get_or, flatten, All,
  All-append, ◌==◌, if◌then◌else◌, str_eq, inl, inr, Bool-cases,
}
use text.Mathlib.TextEquality.{eq_iff}
use ansible_playbooks.Resource.Ids.{ResourceId}
use ansible_playbooks.Plan
use ansible_playbooks.Plan.{Node, Plan, len}
use ansible_playbooks.Plan.Laws.{IsNumbered, nil-IsNumbered, add-IsNumbered}
use ansible_playbooks.Backends.Registry.{Resource, deps}
use ansible_playbooks.Bundles.{Context, Build, pure, ◌>>=◌, add, each, find, insert, memoized, new}

abbrev pub AreIds : List ResourceId → ℕ → Type 0
AreIds ids n = All (λ d. d < n) ids

pub AreIds-mono : (ids : List ResourceId) {m n : ℕ} → m ≤ n → AreIds ids m → AreIds ids n
AreIds-mono [] le h = tt
AreIds-mono (d ∷ ids) le h = (omega arith, AreIds-mono ids le h.1)

-- Nodes are numbered by their places, dependencies point back, and the memo holds ids of nodes.
pub record IsSound (c : Context) : Type 0 where
  pub numbered : IsNumbered c.plan
  pub backward :
      (i : ℕ) (node : Node Resource)
      → get_elem? c.plan i ≡ some node
      → AreIds (deps node.resource) i
  pub cached : (key : String) (id : ResourceId) → find key c.cache ≡ some id → id < len c.plan

-- `c'` has all nodes of `c` and all its memo, and maybe more.
pub record Grown (c c' : Context) : Type 0 where
  pub longer : len c.plan ≤ len c'.plan
  pub nodes :
      (i : ℕ) (node : Node Resource)
      → get_elem? c.plan i ≡ some node
      → get_elem? c'.plan i ≡ some node
  pub memo :
      (key : String) (id : ResourceId) → find key c.cache ≡ some id → find key c'.cache ≡ some id

-- From a sound context with `n` nodes at least, the action leads to a sound and grown one, and
-- what it returns is below the new number of nodes in the sense of `P`.
pub record Fits {A : Type 0} (P : A → ℕ → Type 0) (n : ℕ) (m : Build A) : Type 0 where
  pub sound : (c : Context) → IsSound c → n ≤ len c.plan → IsSound (m c).1
  pub grown : (c : Context) → IsSound c → n ≤ len c.plan → Grown c (m c).1
  pub result : (c : Context) → IsSound c → n ≤ len c.plan → P (m c).0 (len (m c).1.plan)

pub Grown-refl : (c : Context) → Grown c c
Grown-refl c = record { longer = omega arith; nodes = λ i node e. e; memo = λ key id e. e }

pub Grown-trans : {a b c : Context} → Grown a b → Grown b c → Grown a c
Grown-trans g h = record {
  longer = omega (arith, g.longer, h.longer);
  nodes = λ i node e. h.nodes i node (g.nodes i node e);
  memo = λ key id e. h.memo key id (g.memo key id e);
}

pub new-IsSound : IsSound new
unfolding find
new-IsSound = record {
  numbered = nil-IsNumbered;
  backward = λ i node e. cc;
  cached = λ key id e. cc;
}

pub pure-Fits :
    {A : Type 0} {P : A → ℕ → Type 0} {n : ℕ} (a : A)
    → ((k : ℕ) → n ≤ k → P a k)
    → Fits P n (pure a)
unfolding pure
pure-Fits a h = record {
  sound = λ c s le. s;
  grown = λ c s le. Grown-refl c;
  result = λ c s le. h (len c.plan) le;
}

pub >>=-Fits :
    {A B : Type 0} {P : A → ℕ → Type 0} {Q : B → ℕ → Type 0} {n : ℕ} {m : Build A} {f : A → Build B}
    → Fits P n m
    → ((a : A) (k : ℕ) → n ≤ k → P a k → Fits Q k (f a))
    → Fits Q n (m >>= f)
unfolding ◌>>=◌
>>=-Fits {m} {f} h rest =
    let next = λ (c : Context) (s : IsSound c) (le : _ ≤ len c.plan).
      rest (m c).0 (len (m c).1.plan) (omega (arith, (h.grown c s le).longer)) (h.result c s le) in
    record {
      sound = λ c s le. (next c s le).sound (m c).1 (h.sound c s le) (omega arith);
      grown = λ c s le.
          Grown-trans (h.grown c s le) ((next c s le).grown (m c).1 (h.sound c s le) (omega arith));
      result = λ c s le. (next c s le).result (m c).1 (h.sound c s le) (omega arith);
    }

inside :
    (plan : Plan Resource) (i : ℕ) (node : Node Resource)
    → get_elem? plan i ≡ some node
    → i < len plan
inside [] i node e = cc
inside (x ∷ plan) zero node e = omega arith
inside (x ∷ plan) (suc i) node e = omega (arith, inside plan i node e)

All-mono :
    {B : Type 0} {P Q : B → Type 0} (bs : List B) → ((b : B) → P b → Q b) → All P bs → All Q bs
All-mono [] h all = tt
All-mono (b ∷ bs) h all = (h b all.0, All-mono bs h all.1)

pub add-Fits : (r : Resource) {n : ℕ} → AreIds (deps r) n → Fits ◌<◌ n (add r)
unfolding add Plan.add
add-Fits r known = record {
  sound = λ c s le.
      let laws = add-IsNumbered c.plan r s.numbered in
      record {
        numbered = laws.0;
        backward = λ i node e. elim (Bool-cases (i == len c.plan)) [
          | inl last ↦
              let here : node.resource ≡ r = ground (arith, laws.3 i) in
              let place : i ≡ len c.plan = ground arith in
              rw (here, place) (AreIds-mono (deps r) le known)
          | inr old ↦ s.backward i node (ground (arith, laws.3 i))
        ];
        cached = λ key id e. omega (arith, s.cached key id e, laws.2);
      };
  grown = λ c s le.
      let laws = add-IsNumbered c.plan r s.numbered in
      record {
        longer = omega (arith, laws.2);
        nodes = λ i node e. ground (arith, laws.3 i, inside c.plan i node e);
        memo = λ key id e. e;
      };
  result = λ c s le. omega (arith, (add-IsNumbered c.plan r s.numbered).2);
}

pub each-Fits :
    {A B : Type 0} {P : B → ℕ → Type 0} {n : ℕ} (f : A → Build B) (xs : List A)
    → ((b : B) (j k : ℕ) → j ≤ k → P b j → P b k)
    → ((x : A) (k : ℕ) → n ≤ k → Fits P k (f x))
    → Fits (λ bs k. All (λ b. P b k) bs) n (each f xs)
unfolding each
each-Fits f [] mono h = pure-Fits [] (λ k le. tt)
each-Fits {P} f (x ∷ xs) mono h = >>=-Fits (h x _ (omega arith)) λ b k le known.
    >>=-Fits {P = λ bs k. All (λ b. P b k) bs}
      (each-Fits f xs mono (λ y j more. h y j (omega arith)))
      λ bs j more all.
        pure-Fits (b ∷ bs)
          (λ i most. (mono b k i (omega arith) known, All-mono bs (λ b' p. mono b' j i most p) all))

pub find-insert :
    (key j : String) (id : ResourceId) (memo : List (String × ResourceId))
    → find j (insert key id memo) ≡ (if str_eq key j then some id else find j memo)
unfolding find insert
find-insert key j id [] = refl
find-insert key j id ((k, old) ∷ memo) =
    ground (arith, eq_iff key j, eq_iff k key, eq_iff k j, find-insert key j id memo)

module _ (key : String) (build : Build ResourceId) (h : Fits ◌<◌ 0 build) where
  built : Context → Context
  built c = let (id, c') = build c in record c' { cache = insert key id c'.cache }

  -- Names that the memo holds already are held still: `key` was not among them.
  built-IsSound : (c : Context) → IsSound c → IsSound (built c)
  unfolding built
  built-IsSound c s =
      let s' = h.sound c s (omega arith) in
      record {
        numbered = s'.numbered;
        backward = s'.backward;
        cached = λ j id e. ground (
          arith,
          find-insert key j (build c).0 (build c).1.cache,
          h.result c s (omega arith),
          s'.cached j id,
        );
      }

  built-Grown : (c : Context) → IsSound c → find key c.cache ≡ none → Grown c (built c)
  unfolding built
  built-Grown c s fresh =
      let g = h.grown c s (omega arith) in
      record {
        longer = g.longer;
        nodes = g.nodes;
        memo = λ j id e. ground (
          arith,
          find-insert key j (build c).0 (build c).1.cache,
          g.memo j id e,
          eq_iff key j,
          fresh,
        );
      }

  pub memoized-Fits : {n : ℕ} → Fits ◌<◌ n (memoized key build)
  unfolding memoized built
  memoized-Fits = record {
    sound = λ c s le. elim (Option-cases (find key c.cache)) [
      | inl fresh ↦ rw (fresh, memoized) (built-IsSound c s)
      | inr (id, old) ↦ rw (old, memoized) s
    ];
    grown = λ c s le. elim (Option-cases (find key c.cache)) [
      | inl fresh ↦ rw (fresh, memoized) (built-Grown c s fresh)
      | inr (id, old) ↦ rw (old, memoized) (Grown-refl c)
    ];
    result = λ c s le. elim (Option-cases (find key c.cache)) [
      | inl fresh ↦ rw (fresh, memoized) (h.result c s (omega arith))
      | inr (id, old) ↦ rw (old, memoized) (s.cached key id old)
    ];
  }

pub AreIds-append :
    (xs ys : List ResourceId) (n : ℕ) → AreIds xs n → AreIds ys n → AreIds (xs ++ ys) n
AreIds-append xs ys n hx hy = All-append (λ d. d < n) xs ys hx hy

pub AreIds-flatten :
    (rounds : List (List ResourceId)) (n : ℕ)
    → All (λ ids. AreIds ids n) rounds
    → AreIds (flatten rounds) n
AreIds-flatten [] n h = tt
AreIds-flatten (ids ∷ rounds) n h =
    AreIds-append ids (flatten rounds) n h.0 (AreIds-flatten rounds n h.1)

pub AreIds-get_or :
    (ids : List ResourceId) (i : ℕ) {d n : ℕ} → d < n → AreIds ids n → get_or ids i d < n
AreIds-get_or [] i lt h = lt
AreIds-get_or (id ∷ ids) zero lt h = h.0
AreIds-get_or (id ∷ ids) (suc i) lt h = AreIds-get_or ids i lt h.1

pub if-Fits :
    {A : Type 0} {P : A → ℕ → Type 0} {n : ℕ} (b : Bool) {m m' : Build A}
    → Fits P n m
    → Fits P n m'
    → Fits P n (if b then m else m')
if-Fits true h h' = h
if-Fits false h h' = h'

pub each-add-Fits :
    {A : Type 0} {n : ℕ} (f : A → Resource) (xs : List A)
    → ((x : A) (k : ℕ) → n ≤ k → AreIds (deps (f x)) k)
    → Fits AreIds n (each (λ x. add (f x)) xs)
each-add-Fits f xs h =
    each-Fits (λ x. add (f x)) xs (λ id j k le lt. omega arith)
      (λ x k le. add-Fits (f x) (h x k le))

-- The rounds of a loop that each add some resources.
pub rounds-Fits :
    {A : Type 0} {n : ℕ} (f : A → Build (List ResourceId)) (xs : List A)
    → ((x : A) (k : ℕ) → n ≤ k → Fits AreIds k (f x))
    → Fits (λ rounds k. All (λ ids. AreIds ids k) rounds) n (each f xs)
rounds-Fits f xs h = each-Fits f xs (λ ids j k le known. AreIds-mono ids le known) h

pub when-Fits :
    {n : ℕ} (b : Bool) {m : Build (List ResourceId)}
    → Fits AreIds n m
    → Fits AreIds n (if b then m else pure [])
when-Fits b h = if-Fits b h (pure-Fits [] (λ k le. tt))

pub AreIds-when :
    (b : Bool) (ids : List ResourceId) (n : ℕ) → AreIds ids n → AreIds (if b then ids else []) n
AreIds-when true ids n h = h
AreIds-when false ids n h = tt
