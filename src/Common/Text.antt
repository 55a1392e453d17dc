-- ===== src/Common/Text.antt =====
-- Text as lists of code points, and the functions of Go's `strings` that the program uses.
-- `to_lower` leaves a letter beyond ASCII alone unless its lower case is an ASCII letter (U+0130,
-- U+212A): it is used only where the result is compared with ASCII words.
use Prim.Native.Nat.{ℕ, ◌+◌}
use Prim.Native.Char.{code}
use Prim.Native.String.{String}
use mathlib.Core.Bool.{Bool, true, false, ◌&&◌, ◌||◌}
use mathlib.Core.Option.{Option, none, some}
use mathlib.Core.List.{List, [], ◌∷◌, ◌++◌, map, reverse}
use valaf.Common.Tests.{leb, eqb, if◌then◌else◌}
use valaf.Common.Lists.{any}

abbrev pub Text : Type 0
Text = List ℕ

-- the code points of a string
abbrev pub codes : String → Text
codes String.[] = []
codes (String.◌∷◌ c s) = code c ∷ codes s

unfoldable pub same : Text → Text → Bool
same [] [] = true
same (a ∷ s) (b ∷ t) = eqb a b && same s t
same _ _ = false

-- unicode.IsSpace
unfoldable pub is_space : ℕ → Bool
is_space c =
    (leb 9 c && leb c 13)
    || any (eqb c) (0x20 ∷ 0x85 ∷ 0xA0 ∷ 0x1680 ∷ 0x2028 ∷ 0x2029 ∷ 0x202F ∷ 0x205F ∷ 0x3000 ∷ [])
    || (leb 0x2000 c && leb c 0x200A)

unfoldable pub trim_left : Text → Text
unfolding is_space
trim_left [] = []
trim_left (c ∷ s) = let rest = trim_left s in if is_space c then rest else c ∷ s

-- strings.TrimSpace
unfoldable pub trim_space : Text → Text
unfolding trim_left
trim_space s = reverse (trim_left (reverse (trim_left s)))

unfoldable pub lower : ℕ → ℕ
lower c =
    if leb b'A' c && leb c b'Z'
    then c + 32
    else if eqb c 0x130
    then b'i'
    else if eqb c 0x212A
    then b'k'
    else c

-- strings.ToLower
unfoldable pub to_lower : Text → Text
unfolding lower
to_lower = map lower

-- a case label of a `switch` on a text: the text is one of the words
unfoldable pub one_of : Text → List String → Bool
unfolding same
one_of t [] = false
one_of t (w ∷ ws) = same t (codes w) || one_of t ws

-- strings.CutPrefix
unfoldable pub cut_prefix : Text → Text → Option Text
cut_prefix [] t = some t
cut_prefix (c ∷ p) [] = none
cut_prefix (c ∷ p) (d ∷ t) = let rest = cut_prefix p t in if eqb c d then rest else none

-- strings.HasPrefix, the prefix second
unfoldable pub has_prefix : Text → Text → Bool
unfolding cut_prefix
has_prefix t p = elim (cut_prefix p t) [ none ↦ false | some _ ↦ true ]

-- strings.HasSuffix
unfoldable pub has_suffix : Text → Text → Bool
unfolding has_prefix
has_suffix t p = has_prefix (reverse t) (reverse p)

-- strings.Contains
unfoldable pub contains_text : Text → Text → Bool
unfolding has_prefix
contains_text [] p = has_prefix [] p
contains_text (c ∷ t) p = has_prefix (c ∷ t) p || contains_text t p

-- strings.ReplaceAll of a character
unfoldable pub replace_char : ℕ → Text → Text → Text
replace_char c by [] = []
replace_char c by (d ∷ t) =
    let rest = replace_char c by t in if eqb d c then by ++ rest else d ∷ rest

-- strings.Join
unfoldable pub join : Text → List Text → Text
join sep [] = []
join sep (t ∷ []) = t
join sep (t ∷ u ∷ rest) = t ++ (sep ++ join sep (u ∷ rest))

-- strings.Split at a character; `word` is what was read of the present part, backwards
unfoldable pub split : ℕ → Text → Text → List Text
split c word [] = reverse word ∷ []
split c word (d ∷ t) =
    let rest = split c [] t in
    let more = split c (d ∷ word) t in if eqb d c then reverse word ∷ rest else more

abbrev pub drop_char : ℕ → Text → Text
drop_char c [] = []
drop_char c (d ∷ t) = let rest = drop_char c t in if eqb d c then rest else d ∷ t

-- strings.TrimRight with one character
unfoldable pub trim_right : ℕ → Text → Text
trim_right c t = reverse (drop_char c (reverse t))
