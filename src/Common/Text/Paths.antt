-- ===== src/Common/Text/Paths.antt =====
-- `==` of `std::path::Path`, which compares the components: neither repeated separators, nor one at
-- the end, nor `.` behind the first component count.
use ansible_playbooks.Common.{
  ◌≡◌, refl, String, Bool, true, false, not, ◌&&◌, List, [], ◌∷◌, str_eq, filterb,
}
use ansible_playbooks.Common.Text.{split_by, split_on, is_empty_text}

abbrev is_component : String → Bool
is_component piece = not (is_empty_text piece) && not (str_eq piece ".")

-- The pieces between the separators; an empty one in front is the root.
abbrev components_of : List String → List String
components_of [] = []
components_of (piece ∷ []) = filterb (λ p. not (is_empty_text p)) (piece ∷ [])
components_of (String.[] ∷ next ∷ more) = "/" ∷ filterb is_component (next ∷ more)
components_of (String.◌∷◌ c piece ∷ next ∷ more) =
    String.◌∷◌ c piece ∷ filterb is_component (next ∷ more)

abbrev same_texts : List String → List String → Bool
same_texts [] [] = true
same_texts [] (t ∷ ts) = false
same_texts (s ∷ ss) [] = false
same_texts (s ∷ ss) (t ∷ ts) = str_eq s t && same_texts ss ts

unfoldable pub same_path : String → String → Bool
unfolding split_by
same_path a b = same_texts (components_of (split_on 47 a)) (components_of (split_on 47 b))

same_path-trailing : same_path "/usr//lib/./x/" "/usr/lib/x" ≡ true
unfolding same_path
same_path-trailing = refl

same_path-parent : same_path "/usr/lib/../x" "/usr/x" ≡ false
unfolding same_path
same_path-parent = refl
