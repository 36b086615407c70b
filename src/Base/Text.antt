-- ===== src/Base/Text.antt =====
-- Go strings as lists of code points, and what the program uses of the package strings.
use Prim.Native.Nat.{ℕ}
use Prim.Native.Char.{code}
use Prim.Native.String.{String}
use mathlib.Core.Path.{◌≡◌, refl, ap, ◌∙◌}
use mathlib.Core.Logic.{◌≢◌, ◌↔◌, inl, inr}
use mathlib.Core.Bool.{Bool, true, false, ◌&&◌, ◌||◌}
use mathlib.Core.List.{List, [], ◌∷◌, ◌++◌, reverse}
use native.Mathlib.Omega.{arith}
use capi_shell_mcp.Base.Tests.{Eq, nat_beq, nat_beq_iff, leb, Bool-cases, if◌then◌else◌}
use capi_shell_mcp.Base.Lists.{All}

abbrev pub GoString : Type 0
GoString = List ℕ

-- The text of a literal.
abbrev pub lit : String → GoString
lit String.[] = []
lit (String.◌∷◌ c s) = code c ∷ lit s

abbrev pub str_beq : GoString → GoString → Bool
str_beq [] [] = true
str_beq [] (d ∷ t) = false
str_beq (c ∷ s) [] = false
str_beq (c ∷ s) (d ∷ t) = nat_beq c d && str_beq s t

pub str_beq_iff : (s t : GoString) → (str_beq s t ≡ true) ↔ (s ≡ t)
str_beq_iff [] [] = ground arith
str_beq_iff [] (d ∷ t) = ground arith
str_beq_iff (c ∷ s) [] = ground arith
str_beq_iff (c ∷ s) (d ∷ t) = ground (arith, nat_beq_iff c d, str_beq_iff s t)

instance abbrev pub str_eq : Eq GoString
str_eq = record { beq = str_beq; beq_iff = str_beq_iff }

-- s == ""
abbrev pub is_empty : GoString → Bool
is_empty [] = true
is_empty (c ∷ s) = false

pub is_empty_iff : (s : GoString) → (is_empty s ≡ true) ↔ (s ≡ [])
is_empty_iff [] = ground arith
is_empty_iff (c ∷ s) = ground arith

-- The text has no separator in it.
abbrev pub Lacks : ℕ → GoString → Type 0
Lacks sep = All (λ c. c ≢ sep)

glue_char : ℕ → List GoString → List GoString
glue_char c [] = (c ∷ []) ∷ []
glue_char c (p ∷ ps) = (c ∷ p) ∷ ps

-- strings.Split with a separator of one character.
unfoldable pub split : ℕ → GoString → List GoString
unfolding glue_char
split sep [] = [] ∷ []
split sep (c ∷ s) = let rest = split sep s in if nat_beq c sep then [] ∷ rest else glue_char c rest

-- strings.Join with a separator of one character.
unfoldable pub join : ℕ → List GoString → GoString
join sep [] = []
join sep (p ∷ []) = p
join sep (p ∷ q ∷ ps) = p ++ (sep ∷ join sep (q ∷ ps))

-- strings.Join
unfoldable pub join_with : GoString → List GoString → GoString
join_with sep [] = []
join_with sep (p ∷ []) = p
join_with sep (p ∷ q ∷ ps) = p ++ (sep ++ join_with sep (q ∷ ps))

pub split-ne-nil : (sep : ℕ) (s : GoString) → split sep s ≢ []
unfolding split
split-ne-nil sep [] = λ e. cc
split-ne-nil sep (c ∷ s) = ground (arith, split-ne-nil sep s)

join-cons :
    (sep : ℕ) (p : GoString) (ps : List GoString)
    → ps ≢ []
    → join sep (p ∷ ps) ≡ p ++ (sep ∷ join sep ps)
unfolding join
join-cons sep p [] h = absurd (h refl)
join-cons sep p (q ∷ ps) h = refl

join-glue_char : (sep c : ℕ) (ps : List GoString) → join sep (glue_char c ps) ≡ c ∷ join sep ps
unfolding join glue_char
join-glue_char sep c [] = refl
join-glue_char sep c (p ∷ []) = refl
join-glue_char sep c (p ∷ q ∷ ps) = refl

pub join-split : (sep : ℕ) (s : GoString) → join sep (split sep s) ≡ s
unfolding split
join-split sep [] = unfold join in refl
join-split sep (c ∷ s) = ground (
  arith,
  join-cons sep [] (split sep s),
  split-ne-nil sep s,
  join-glue_char sep c (split sep s),
  join-split sep s,
)

-- A text without the separator stands in the first part.
pub split-Lacks : (sep : ℕ) (p : GoString) → Lacks sep p → split sep p ≡ p ∷ []
unfolding split
split-Lacks sep [] h = refl
split-Lacks sep (c ∷ p) (hc, h) = ground (arith, split-Lacks sep p h, nat_beq_iff c sep)

pub split-append :
    (sep : ℕ) (p s : GoString) → Lacks sep p → split sep (p ++ (sep ∷ s)) ≡ p ∷ split sep s
unfolding split
split-append sep [] s h = ground (arith, nat_beq_iff sep sep)
split-append sep (c ∷ p) s (hc, h) = ground (arith, split-append sep p s h, nat_beq_iff c sep)

glue_char-Lacks :
    (sep c : ℕ) (ps : List GoString)
    → c ≢ sep
    → All (Lacks sep) ps
    → All (Lacks sep) (glue_char c ps)
unfolding glue_char
glue_char-Lacks sep c [] hc h = ((hc, tt), tt)
glue_char-Lacks sep c (p ∷ ps) hc (hp, h) = ((hc, hp), h)

pub split-parts-Lacks : (sep : ℕ) (s : GoString) → All (Lacks sep) (split sep s)
unfolding split
split-parts-Lacks sep [] = (tt, tt)
split-parts-Lacks sep (c ∷ s) = elim (Bool-cases (nat_beq c sep)) [
  | inl same ↦ rw same (tt, split-parts-Lacks sep s)
  | inr other ↦ rw other (
      glue_char-Lacks sep c (split sep s) (λ e. cc ((nat_beq_iff c sep).1 e))
        (split-parts-Lacks sep s))
]

pub split-join :
    (sep : ℕ) (p : GoString) (ps : List GoString)
    → All (Lacks sep) (p ∷ ps)
    → split sep (join sep (p ∷ ps)) ≡ p ∷ ps
unfolding join
split-join sep p [] (hp, h) = split-Lacks sep p hp
split-join sep p (q ∷ ps) (hp, h) =
    split-append sep p (join sep (q ∷ ps)) hp ∙ ap (λ t. p ∷ t) (split-join sep q ps h)

starts_with : GoString → GoString → Bool
starts_with [] s = true
starts_with (c ∷ p) [] = false
starts_with (c ∷ p) (d ∷ s) = nat_beq c d && starts_with p s

-- strings.Contains(s, p)
unfoldable pub has_substring : GoString → GoString → Bool
unfolding starts_with
has_substring [] p = starts_with p []
has_substring (c ∷ s) p = starts_with p (c ∷ s) || has_substring s p

-- unicode.IsSpace
abbrev pub is_space : ℕ → Bool
is_space c =
    (leb 9 c && leb c 13)
    || nat_beq c 0x20
    || nat_beq c 0x85
    || nat_beq c 0xa0
    || nat_beq c 0x1680
    || (leb 0x2000 c && leb c 0x200a)
    || nat_beq c 0x2028
    || nat_beq c 0x2029
    || nat_beq c 0x202f
    || nat_beq c 0x205f
    || nat_beq c 0x3000

trim_left : GoString → GoString
trim_left [] = []
trim_left (c ∷ s) = if is_space c then trim_left s else c ∷ s

-- strings.TrimSpace
unfoldable pub trim_space : GoString → GoString
unfolding trim_left
trim_space s = reverse (trim_left (reverse (trim_left s)))
