-- ===== src/Bundles/Iptables/Lines.antt =====
-- The rules of src/bundles/iptables.rs line by line, as iptables-restore reads them.
use ansible_playbooks.Common.{
  ℕ, ◌≡◌, refl, sym, ap, ◌∙◌, subst, String, ◌<>◌, Bool, true, false, ◌&&◌, Option, none, some,
  List, [], ◌∷◌, ◌++◌, arith, ◌==◌, if◌then◌else◌,
}
use Prim.Native.Char.{code}
use text.Mathlib.TextLemmas.{append_assoc, cons-append, nil-append}
use ansible_playbooks.Common.Text.{is_empty_text, decimal, split_on, strip_prefix}
use ansible_playbooks.Common.Text.Decimal.{Lacks, decimal-Lacks}
use ansible_playbooks.Common.Text.Splits.{Lacks-append, split_by-mark, split_by-append}

abbrev jump : String
jump = "-A NF_PERSIST_INPUT -j "

abbrev is_none : Option String → Bool
is_none none = true
is_none (some s) = false

-- The line is not a rule of the chain that takes every packet.
abbrev pub is_open : String → Bool
is_open line = is_none (strip_prefix jump line)

abbrev pub all_open : List String → Bool
all_open [] = true
all_open (line ∷ lines) = is_open line && all_open lines

-- The rule is a line of the rules, and packets get to it: no line in front of it takes them all.
pub record Reaches (rules rule : String) : Type 0 where
  pub before : List String
  pub after : List String
  pub same : split_on 10 rules ≡ before ++ (rule ∷ after)
  pub untaken : all_open before ≡ true

-- Whole lines, none of which takes every packet.
pub record OpenLines (text : String) : Type 0 where
  pub lines : List String
  pub splits : (rest : String) → split_on 10 (text <> rest) ≡ lines ++ split_on 10 rest
  pub untaken : all_open lines ≡ true

concat_assoc : (xs ys zs : List String) → (xs ++ ys) ++ zs ≡ xs ++ (ys ++ zs)
concat_assoc [] ys zs = refl
concat_assoc (x ∷ xs) ys zs = ap (λ l. x ∷ l) (concat_assoc xs ys zs)

all_open-append :
    (xs ys : List String) → all_open xs ≡ true → all_open ys ≡ true → all_open (xs ++ ys) ≡ true
all_open-append [] ys hx hy = hy
all_open-append (x ∷ xs) ys hx hy = ground (arith, hx, hy, all_open-append xs ys)

pub nil-OpenLines : OpenLines ""
nil-OpenLines = record {
  lines = [];
  splits = λ rest. ap (split_on 10) (nil-append rest);
  untaken = refl;
}

pub append-OpenLines : {s t : String} → OpenLines s → OpenLines t → OpenLines (s <> t)
append-OpenLines {s} {t} a b = record {
  lines = a.lines ++ b.lines;
  splits = λ rest.
      ap (split_on 10) (append_assoc s t rest)
      ∙ a.splits (t <> rest)
      ∙ ap (λ l. a.lines ++ l) (b.splits rest)
      ∙ sym (concat_assoc a.lines b.lines (split_on 10 rest));
  untaken = all_open-append a.lines b.lines a.untaken b.untaken;
}

pub lines-OpenLines :
    (front : String) → all_open (split_on 10 front) ≡ true → OpenLines (front <> "\n")
lines-OpenLines front h = record {
  lines = split_on 10 front;
  splits = λ rest.
      ap (split_on 10) (append_assoc front "\n" rest)
      ∙ split_by-append (λ c. c == 10) front rest "\n" refl;
  untaken = h;
}

-- The texts differ at a place that both have.
abbrev pub clashes : String → String → Bool
clashes String.[] s = false
clashes (String.◌∷◌ c p) String.[] = false
clashes (String.◌∷◌ c p) (String.◌∷◌ d s) =
    let rest = clashes p s in if code c == code d then rest else true

strip_prefix-clashes : (p s t : String) → clashes p s ≡ true → strip_prefix p (s <> t) ≡ none
unfolding strip_prefix
strip_prefix-clashes String.[] s t h = cc
strip_prefix-clashes (String.◌∷◌ c p) String.[] t h = cc
strip_prefix-clashes (String.◌∷◌ c p) (String.◌∷◌ d s) t h =
    rw cons-append (ground (arith, h, strip_prefix-clashes p s t))

abbrev pub lacks : (ℕ → Bool) → String → Bool
lacks at String.[] = true
lacks at (String.◌∷◌ c s) = let rest = lacks at s in if at (code c) then false else rest

lacks-Lacks : (at : ℕ → Bool) (s : String) → lacks at s ≡ true → Lacks at s
lacks-Lacks at String.[] h = tt
lacks-Lacks at (String.◌∷◌ c s) h = (ground (arith, h), lacks-Lacks at s (ground (arith, h)))

-- A rule for a port, from its words in front of the port.
abbrev pub port_rule : String → ℕ → String
port_rule words port = words <> (decimal port <> " -j ACCEPT")

module _ (words : String) (one_line : lacks (λ c. c == 10) words ≡ true) (port : ℕ) where
  port_rule-Lacks : Lacks (λ c. c == 10) (port_rule words port)
  port_rule-Lacks =
      Lacks-append (λ c. c == 10) words (decimal port <> " -j ACCEPT")
        (lacks-Lacks (λ c. c == 10) words one_line)
        (Lacks-append (λ c. c == 10) (decimal port) " -j ACCEPT" (decimal-Lacks 10 refl port)
          (lacks-Lacks (λ c. c == 10) " -j ACCEPT" refl))

  pub port_rule-Reaches :
      {front : String} (rest : String)
      → OpenLines front
      → Reaches (front <> (port_rule words port <> ("\n" <> rest))) (port_rule words port)
  port_rule-Reaches {front} rest h = record {
    before = h.lines;
    after = split_on 10 rest;
    same =
        h.splits (port_rule words port <> ("\n" <> rest))
        ∙ ap (λ l. h.lines ++ l)
            (split_by-mark (λ c. c == 10) (port_rule words port) rest "\n" port_rule-Lacks refl);
    untaken = h.untaken;
  }

  pub port_rule-OpenLines :
      clashes jump words ≡ true → OpenLines (words <> (decimal port <> " -j ACCEPT\n"))
  port_rule-OpenLines differs = record {
    lines = port_rule words port ∷ [];
    splits = λ rest.
        ap (split_on 10) (
          append_assoc words (decimal port <> " -j ACCEPT\n") rest
          ∙ ap (λ u. words <> u) (append_assoc (decimal port) " -j ACCEPT\n" rest)
          ∙ ap (λ u. words <> (decimal port <> u)) (append_assoc " -j ACCEPT" "\n" rest)
          ∙ sym (
              append_assoc words (decimal port <> " -j ACCEPT") ("\n" <> rest)
              ∙ ap (λ u. words <> u) (append_assoc (decimal port) " -j ACCEPT" ("\n" <> rest))))
        ∙ split_by-mark (λ c. c == 10) (port_rule words port) rest "\n" port_rule-Lacks refl;
    untaken =
        ground (arith, strip_prefix-clashes jump words (decimal port <> " -j ACCEPT") differs);
  }

-- The text without its last character.
abbrev chop : String → String
chop String.[] = ""
chop (String.◌∷◌ c s) = let rest = chop s in if is_empty_text s then "" else String.◌∷◌ c rest

pub closed-OpenLines :
    (text : String)
    → chop text <> "\n" ≡ text
    → all_open (split_on 10 (chop text)) ≡ true
    → OpenLines text
closed-OpenLines text same h = subst OpenLines same (lines-OpenLines (chop text) h)
