-- ===== src/Common/Text.antt =====
-- The methods of `str` that the source uses. A `char` is read through its code point.
pub mod Decimal
pub mod Splits
pub mod Paths
use Prim.Native.Nat.{ℕ, zero, suc, ◌+◌, ◌*◌, ◌-◌, ◌^◌, ◌/◌, ◌%◌}
use Prim.Native.Char.{Char, code}
use Prim.Native.String.{String, ◌++◌ as ◌<>◌}
use mathlib.Core.Bool.{Bool, true, false, not, ◌&&◌, ◌||◌}
use mathlib.Core.Option.{Option, none, some}
use mathlib.Core.List.{List, [], ◌∷◌}
use ansible_playbooks.Common.Tests.{ltb, leb, ◌==◌, if◌then◌else◌}
use ansible_playbooks.Common.Lists.{filterb}
use text.Mathlib.Text.{◌==◌ as str_eq, starts_with}

-- `char::is_whitespace`
unfoldable pub is_whitespace : ℕ → Bool
is_whitespace c =
    (leb 9 c && leb c 13)
    || c == 32
    || c == 133
    || c == 160
    || c == 5760
    || (leb 8192 c && leb c 8202)
    || c == 8232
    || c == 8233
    || c == 8239
    || c == 8287
    || c == 12288

abbrev pub is_empty_text : String → Bool
is_empty_text String.[] = true
is_empty_text (String.◌∷◌ c s) = false

unfoldable pub trim_start : String → String
unfolding is_whitespace
trim_start String.[] = String.[]
trim_start (String.◌∷◌ c s) =
    let rest = trim_start s in if is_whitespace (code c) then rest else String.◌∷◌ c s

unfoldable pub trim_end : String → String
unfolding is_whitespace
trim_end String.[] = String.[]
trim_end (String.◌∷◌ c s) =
    let rest = trim_end s in
    if is_whitespace (code c) && is_empty_text rest then String.[] else String.◌∷◌ c rest

unfoldable pub trim : String → String
unfolding trim_start trim_end
trim s = trim_end (trim_start s)

abbrev pub push_head : Char → List String → List String
push_head c [] = String.◌∷◌ c String.[] ∷ []
push_head c (piece ∷ pieces) = String.◌∷◌ c piece ∷ pieces

-- `split` at the characters that pass the test.
unfoldable pub split_by : (ℕ → Bool) → String → List String
split_by at String.[] = String.[] ∷ []
split_by at (String.◌∷◌ c s) =
    let rest = split_by at s in if at (code c) then String.[] ∷ rest else push_head c rest

abbrev pub split_on : ℕ → String → List String
split_on k = split_by (λ c. c == k)

unfoldable pub split_whitespace : String → List String
unfolding split_by is_whitespace
split_whitespace s = filterb (λ w. not (is_empty_text w)) (split_by is_whitespace s)

-- One `\r` at the end is taken off.
unfoldable pub strip_cr : String → String
strip_cr String.[] = String.[]
strip_cr (String.◌∷◌ c s) =
    let rest = strip_cr s in
    if code c == 13 && is_empty_text s then String.[] else String.◌∷◌ c rest

-- A last piece without `\n` is kept as it is, unless it is empty.
unfoldable pub finish_lines : List String → List String
unfolding strip_cr
finish_lines [] = []
finish_lines (last ∷ []) = if is_empty_text last then [] else last ∷ []
finish_lines (line ∷ next ∷ more) = strip_cr line ∷ finish_lines (next ∷ more)

unfoldable pub lines : String → List String
unfolding split_by finish_lines
lines s = finish_lines (split_on 10 s)

unfoldable pub ends_with_newline : String → Bool
ends_with_newline String.[] = false
ends_with_newline (String.◌∷◌ c s) = (code c == 10 && is_empty_text s) || ends_with_newline s

-- `str::ends_with`
unfoldable pub ends_with : String → String → Bool
ends_with String.[] end = str_eq "" end
ends_with (String.◌∷◌ c s) end = str_eq (String.◌∷◌ c s) end || ends_with s end

-- `str::contains`, of a text
unfoldable pub contains : String → String → Bool
contains String.[] part = starts_with "" part
contains (String.◌∷◌ c s) part = starts_with (String.◌∷◌ c s) part || contains s part

-- `str::strip_prefix`, the prefix first
unfoldable pub strip_prefix : String → String → Option String
strip_prefix String.[] s = some s
strip_prefix (String.◌∷◌ c prefix) String.[] = none
strip_prefix (String.◌∷◌ c prefix) (String.◌∷◌ d s) =
    let rest = strip_prefix prefix s in if code c == code d then rest else none

-- `str::trim_matches`, of the character with the code `k`
unfoldable pub drop_front : ℕ → String → String
drop_front k String.[] = ""
drop_front k (String.◌∷◌ c s) =
    let rest = drop_front k s in if code c == k then rest else String.◌∷◌ c s

unfoldable pub drop_back : ℕ → String → String
drop_back k String.[] = ""
drop_back k (String.◌∷◌ c s) =
    let rest = drop_back k s in if is_empty_text rest && code c == k then "" else String.◌∷◌ c rest

unfoldable pub trim_matches : ℕ → String → String
trim_matches k s = drop_back k (drop_front k s)

-- `[&str]::join`
unfoldable pub join : String → List String → String
join sep [] = ""
join sep (s ∷ []) = s
join sep (s ∷ t ∷ ts) = s <> sep <> join sep (t ∷ ts)

-- The value of decimal digits, most significant first.
unfoldable pub digits_value : ℕ → String → Option ℕ
digits_value acc String.[] = some acc
digits_value acc (String.◌∷◌ c s) =
    let rest = digits_value (acc * 10 + (code c - 48)) s in
    if leb 48 (code c) && leb (code c) 57 then rest else none

abbrev fits_u32 : Option ℕ → Option ℕ
fits_u32 none = none
fits_u32 (some n) = if ltb n (2 ^ 32) then some n else none

abbrev unsigned_digits : String → Option ℕ
unsigned_digits String.[] = none
unsigned_digits (String.◌∷◌ c s) =
    if code c == 43
    then (if is_empty_text s then none else digits_value 0 s)
    else digits_value 0 (String.◌∷◌ c s)

-- `str::parse::<u32>`: digits with an optional `+` in front, below 2³².
unfoldable pub parse_u32 : String → Option ℕ
unfolding digits_value
parse_u32 s = fits_u32 (unsigned_digits s)

-- A decimal digit.
abbrev digit : ℕ → String
digit zero = "0"
digit (suc zero) = "1"
digit (suc (suc zero)) = "2"
digit (suc (suc (suc zero))) = "3"
digit (suc (suc (suc (suc zero)))) = "4"
digit (suc (suc (suc (suc (suc zero))))) = "5"
digit (suc (suc (suc (suc (suc (suc zero)))))) = "6"
digit (suc (suc (suc (suc (suc (suc (suc zero))))))) = "7"
digit (suc (suc (suc (suc (suc (suc (suc (suc zero)))))))) = "8"
digit _ = "9"

-- `Display` of an unsigned number. The fuel `n + 1` is more than its digits.
unfoldable pub decimal_on : (fuel n : ℕ) → String
decimal_on zero n = ""
decimal_on (suc fuel) n =
    let front = decimal_on fuel (n / 10) in if ltb n 10 then digit n else front <> digit (n % 10)

unfoldable pub decimal : ℕ → String
unfolding decimal_on
decimal n = decimal_on (suc n) n
