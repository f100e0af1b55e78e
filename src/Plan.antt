-- ===== src/Plan.antt =====
-- src/plan.rs: the list of nodes. A resource's id is its place in the list.
pub mod Laws
use ansible_playbooks.Common.{ℕ, Bool, true, false, List, [], ◌∷◌, ◌++◌, length}
use ansible_playbooks.Resource.Ids.{ResourceId}

pub record Node (R : Type 0) : Type 0 where
  pub id : ResourceId
  pub resource : R

abbrev pub Plan : Type 0 → Type 0
Plan R = List (Node R)

module _ {R : Type 0} where
  unfoldable pub add : Plan R → R → Plan R × ResourceId
  add plan resource =
      let id = length plan in (plan ++ (record { id = id; resource = resource } ∷ []), id)

  abbrev pub len : Plan R → ℕ
  len plan = length plan

  abbrev pub is_empty : Plan R → Bool
  is_empty [] = true
  is_empty (_ ∷ _) = false
