-- ===== src/Plan/Laws.antt =====
-- `Plan::add` numbers the nodes by their places, and never moves a node.
use ansible_playbooks.Common.{
  ℕ, zero, suc, ◌+◌, ◌≡◌, refl, none, some, [], ◌∷◌, ◌++◌, arith, length, get_elem?, ◌==◌,
  if◌then◌else◌, length-append,
}
use ansible_playbooks.Plan.{Node, Plan, len, add}

module _ {R : Type 0} where
  -- The node at each place has the place for its id.
  abbrev pub IsNumbered : Plan R → Type 0
  IsNumbered plan = (i : ℕ) (node : Node R) → get_elem? plan i ≡ some node → node.id ≡ i

  get_elem?-snoc :
      (xs : Plan R) (x : Node R) (i : ℕ)
      → get_elem? (xs ++ (x ∷ [])) i ≡ (if i == length xs then some x else get_elem? xs i)
  get_elem?-snoc [] x zero = ground arith
  get_elem?-snoc [] x (suc i) = ground arith
  get_elem?-snoc (y ∷ xs) x zero = ground arith
  get_elem?-snoc (y ∷ xs) x (suc i) = ground (arith, get_elem?-snoc xs x i)

  pub nil-IsNumbered : IsNumbered []
  nil-IsNumbered i node e = cc

  get_elem?-length : (xs : Plan R) → get_elem? xs (length xs) ≡ none
  get_elem?-length [] = refl
  get_elem?-length (x ∷ xs) = get_elem?-length xs

  -- `add` appends one node: it gets the next number, which is returned, and the others stay.
  pub add-IsNumbered :
      (plan : Plan R) (r : R)
      → IsNumbered plan
      → IsNumbered (add plan r).0
        × ((add plan r).1 ≡ len plan)
        × (len (add plan r).0 ≡ len plan + 1)
        × ((i : ℕ)
            → get_elem? (add plan r).0 i ≡ (
                if i == len plan then some (record { id = i; resource = r }) else get_elem? plan i))
  unfolding add
  add-IsNumbered plan r numbered = (
    λ i node e.
        ground (
          arith,
          numbered i node,
          get_elem?-snoc plan (record { id = length plan; resource = r }) i,
        ),
    refl,
    omega (arith, length-append plan (record { id = length plan; resource = r } ∷ [])),
    λ i. ground (arith, get_elem?-snoc plan (record { id = length plan; resource = r }) i),
  )
