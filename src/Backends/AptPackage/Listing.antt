-- ===== src/Backends/AptPackage/Listing.antt =====
-- What `read_installed_packages` of src/backends/apt_package.rs makes of the lines of dpkg-query.
use ansible_playbooks.Common.{
  ℕ, ◌≡◌, refl, ap, ◌∙◌, String, ◌<>◌, Bool, false, ◌||◌, List, [], ◌∷◌, ◌++◌, map, arith, ◌==◌,
  if◌then◌else◌, All, Bool-cases, inl, inr,
}
use Prim.Native.Char.{code}
use text.Mathlib.Text.{starts_with}
use ansible_playbooks.Common.Text.{split_by, split_on, lines, finish_lines, strip_cr}
use ansible_playbooks.Common.Text.Decimal.{Lacks}
use ansible_playbooks.Common.Text.Splits.{split_by-Lacks, Lacks-append, one-append, split_by-mark}
use ansible_playbooks.Backends.AptPackage.{installed_name, installed_names}

-- A package of dpkg's database, with its status as `db:Status-Abbrev` prints it.
pub record Entry : Type 0 where
  pub name : String
  pub status : String

abbrev tab : String
tab = "\t"

abbrev newline : String
newline = "\n"

abbrev row : Entry → String
row e = e.name <> (tab <> e.status)

-- `${Package}\t${db:Status-Abbrev}\n` of each.
abbrev pub print : List Entry → String
print [] = ""
print (e ∷ es) = row e <> (newline <> print es)

abbrev ends_line : ℕ → Bool
ends_line c = c == 10 || c == 13

abbrev is_mark : ℕ → Bool
is_mark c = c == 9 || ends_line c

-- No tab and no end of a line.
abbrev pub IsPlain : String → Type 0
IsPlain s = Lacks is_mark s

abbrev pub IsPlainEntry : Entry → Type 0
IsPlainEntry e = IsPlain e.name × IsPlain e.status

-- The packages whose status begins with `ii`.
abbrev pub present : List Entry → List String
present [] = []
present (e ∷ es) =
    let rest = present es in if starts_with e.status "ii" then e.name ∷ rest else rest

Lacks-mono :
    (f g : ℕ → Bool) (s : String) → ((c : ℕ) → f c ≡ false → g c ≡ false) → Lacks f s → Lacks g s
Lacks-mono f g String.[] h lacks = tt
Lacks-mono f g (String.◌∷◌ c s) h lacks = (h (code c) lacks.0, Lacks-mono f g s h lacks.1)

strip_cr-Lacks : (s : String) → Lacks (λ c. c == 13) s → strip_cr s ≡ s
unfolding strip_cr
strip_cr-Lacks String.[] lacks = refl
strip_cr-Lacks (String.◌∷◌ c s) lacks = ground (arith, lacks.0, strip_cr-Lacks s lacks.1)

-- A row has no end of a line.
row-Lacks : (e : Entry) → IsPlainEntry e → Lacks ends_line (row e)
row-Lacks e plain =
    let drops = λ (c : ℕ) (h : is_mark c ≡ false).
      let kept : ends_line c ≡ false = ground (arith, h) in kept in
    Lacks-append ends_line e.name (tab <> e.status)
      (Lacks-mono is_mark ends_line e.name drops plain.0)
      (rw (one-append "\t") (refl, Lacks-mono is_mark ends_line e.status drops plain.1))

split_on-print :
    (es : List Entry) → All IsPlainEntry es → split_on 10 (print es) ≡ map row es ++ ("" ∷ [])
unfolding split_by
split_on-print [] plain = refl
split_on-print (e ∷ es) plain =
    split_by-mark (λ c. c == 10) (row e) (print es) "\n"
      (Lacks-mono ends_line (λ c. c == 10) (row e) (λ c h. ground (arith, h)) (row-Lacks e plain.0))
      refl
    ∙ ap (λ pieces. row e ∷ pieces) (split_on-print es plain.1)

finish_lines-more :
    (line last : String) (rows : List String)
    → finish_lines (line ∷ (rows ++ (last ∷ [])))
      ≡ strip_cr line ∷ finish_lines (rows ++ (last ∷ []))
unfolding finish_lines
finish_lines-more line last [] = refl
finish_lines-more line last (next ∷ rows) = refl

finish_lines-rows :
    (es : List Entry) → All IsPlainEntry es → finish_lines (map row es ++ ("" ∷ [])) ≡ map row es
unfolding finish_lines
finish_lines-rows [] plain = refl
finish_lines-rows (e ∷ es) plain =
    finish_lines-more (row e) "" (map row es)
    ∙ ap (λ line. line ∷ finish_lines (map row es ++ ("" ∷ [])))
        (strip_cr-Lacks (row e) (
          Lacks-mono ends_line (λ c. c == 13) (row e) (λ c h. ground (arith, h))
            (row-Lacks e plain.0)))
    ∙ ap (λ rest. row e ∷ rest) (finish_lines-rows es plain.1)

split_on-row : (e : Entry) → IsPlainEntry e → split_on 9 (row e) ≡ e.name ∷ e.status ∷ []
split_on-row e plain =
    split_by-mark (λ c. c == 9) e.name e.status "\t"
      (Lacks-mono is_mark (λ c. c == 9) e.name (λ c h. ground (arith, h)) plain.0) refl
    ∙ ap (λ pieces. e.name ∷ pieces)
        (split_by-Lacks (λ c. c == 9) e.status
          (Lacks-mono is_mark (λ c. c == 9) e.status (λ c h. ground (arith, h)) plain.1))

installed_names-rows :
    (es : List Entry) → All IsPlainEntry es → installed_names (map row es) ≡ present es
unfolding installed_names installed_name
installed_names-rows [] plain = refl
installed_names-rows (e ∷ es) plain =
    rw (installed_names, split_on-row e plain.0)
      (elim (Bool-cases (starts_with e.status "ii")) [
        | inl good ↦ rw good (ap (λ names. e.name ∷ names) (installed_names-rows es plain.1))
        | inr bad ↦ rw bad (installed_names-rows es plain.1)
      ])

pub installed_names-print :
    (es : List Entry) → All IsPlainEntry es → installed_names (lines (print es)) ≡ present es
unfolding lines
installed_names-print es plain =
    ap (λ pieces. installed_names (finish_lines pieces)) (split_on-print es plain)
    ∙ ap installed_names (finish_lines-rows es plain)
    ∙ installed_names-rows es plain
