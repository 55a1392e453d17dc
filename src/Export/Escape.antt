-- ===== src/Export/Escape.antt =====
-- No text of a notebook can become markup in a docx document.
use valaf.Common.{
  All, Bool, true, false, ◌&&◌, ◌||◌, leb, ℕ, ◌≡◌, refl, sym, ap, ◌∙◌, Option, none, some, [], ◌∷◌,
  ◌++◌, eqb, eqb_iff, Bool-cases, inl, inr, if◌then◌else◌,
}
use mathlib.Core.List.{append_assoc, reverse}
use mathlib.Core.Path.{subst}
use valaf.Common.Text.{Text, codes, same}
use valaf.Export.Docx.{escape_char, escape_xml}

-- the entities that XML declares
entity : Text → Option ℕ
unfolding same
entity name =
    if same name (codes "amp")
    then some b'&'
    else if same name (codes "lt")
    then some b'<'
    else if same name (codes "gt")
    then some b'>'
    else if same name (codes "quot")
    then some b'"'
    else if same name (codes "apos")
    then some b'\''
    else none

abbrev prepend : ℕ → Option (Text × Text) → Option (Text × Text)
prepend c none = none
prepend c (some (t, rest)) = some (c ∷ t, rest)

abbrev prepend_entity : Option ℕ → Option (Text × Text) → Option (Text × Text)
prepend_entity none r = none
prepend_entity (some c) r = prepend c r

-- the production Char of XML 1.0
abbrev pub is_xml_char : ℕ → Bool
is_xml_char c =
    (eqb c 0x9 || (eqb c 0xA || eqb c 0xD))
    || ((leb 0x20 c && leb c 0xD7FF)
        || ((leb 0xE000 c && leb c 0xFFFD) || (leb 0x10000 c && leb c 0x10FFFF)))

-- what XML does with the ends of lines before it parses: a carriage return, with a line feed behind it
-- or without, is a line feed; the flag says that a carriage return came before
unfoldable pub normalise_lines : Bool → Text → Text
normalise_lines returned [] = []
normalise_lines returned (c ∷ t) =
    let plain = normalise_lines false t in
    let after_return = normalise_lines true t in
    if eqb c 0xD then 0xA ∷ after_return else if returned && eqb c 0xA then plain else c ∷ plain

-- the character data of an XML element up to the next tag, and what follows; the option is the name of
-- the reference that is being read, backwards. A character that XML does not have, an unknown reference
-- and a bare `>` are refused, the last so that there is no `]]>`.
unfoldable pub read_text : Option Text → Text → Option (Text × Text)
unfolding entity
read_text o [] = none
read_text none (c ∷ t) =
    let plain = read_text none t in
    let reference = read_text (some []) t in
    if eqb c b'<'
    then some ([], c ∷ t)
    else if eqb c b'&'
    then reference
    else if eqb c b'>'
    then none
    else if is_xml_char c
    then prepend c plain
    else none
read_text (some name) (c ∷ t) =
    let after = read_text none t in
    let more = read_text (some (c ∷ name)) t in
    if eqb c b';' then prepend_entity (entity (reverse name)) after else more

read_amp : (t : Text) → read_text none (codes "&amp;" ++ t) ≡ prepend b'&' (read_text none t)
unfolding read_text entity same
read_amp t = refl

read_lt : (t : Text) → read_text none (codes "&lt;" ++ t) ≡ prepend b'<' (read_text none t)
unfolding read_text entity same
read_lt t = refl

read_gt : (t : Text) → read_text none (codes "&gt;" ++ t) ≡ prepend b'>' (read_text none t)
unfolding read_text entity same
read_gt t = refl

read_quot : (t : Text) → read_text none (codes "&quot;" ++ t) ≡ prepend b'"' (read_text none t)
unfolding read_text entity same
read_quot t = refl

read_apos : (t : Text) → read_text none (codes "&apos;" ++ t) ≡ prepend b'\'' (read_text none t)
unfolding read_text entity same
read_apos t = refl

-- a character of XML that the ends of lines do not change
abbrev pub IsPlain : ℕ → Type 0
IsPlain c = (is_xml_char c ≡ true) × (eqb c 0xD ≡ false)

abbrev Reads : ℕ → Text → Type 0
Reads c t =
    read_text none (normalise_lines false (escape_char c ++ t))
    ≡ prepend c (read_text none (normalise_lines false t))

read-escape_char : (c : ℕ) (t : Text) → IsPlain c → Reads c t
unfolding escape_char read_text normalise_lines
read-escape_char c t (x, r) = elim (Bool-cases (eqb c b'&')) [
  | inl e ↦ subst (λ d. Reads d t) (sym ((eqb_iff c b'&').0 e)) (read_amp (normalise_lines false t))
  | inr a ↦ elim (Bool-cases (eqb c b'<')) [
    | inl e ↦
        subst (λ d. Reads d t) (sym ((eqb_iff c b'<').0 e)) (read_lt (normalise_lines false t))
    | inr b ↦ elim (Bool-cases (eqb c b'>')) [
      | inl e ↦
          subst (λ d. Reads d t) (sym ((eqb_iff c b'>').0 e)) (read_gt (normalise_lines false t))
      | inr g ↦ elim (Bool-cases (eqb c b'"')) [
        | inl e ↦
            subst (λ d. Reads d t) (sym ((eqb_iff c b'"').0 e))
              (read_quot (normalise_lines false t))
        | inr q ↦ elim (Bool-cases (eqb c b'\'')) [
          | inl e ↦
              subst (λ d. Reads d t) (sym ((eqb_iff c b'\'').0 e))
                (read_apos (normalise_lines false t))
          | inr p ↦ rw a (rw b (rw g (rw q (rw p (rw r (rw b (rw a (rw g (rw x refl)))))))))
        ]
      ]
    ]
  ]
]

-- The escaped text of a heading or of a paragraph that has only characters of XML 1.0 and no carriage
-- return, read as the character data of an XML element up to the tag that follows it, is that text: it
-- neither closes its element nor opens another one.
pub read_text-escape_xml :
    (s rest : Text)
    → All IsPlain s
    → read_text none (normalise_lines false (escape_xml s ++ b'<' ∷ rest))
      ≡ some (s, b'<' ∷ normalise_lines false rest)
unfolding read_text escape_xml normalise_lines
read_text-escape_xml [] rest a = refl
read_text-escape_xml (c ∷ s) rest a =
    ap (λ t. read_text none (normalise_lines false t))
      (append_assoc (escape_char c) (escape_xml s) (b'<' ∷ rest))
    ∙ read-escape_char c (escape_xml s ++ b'<' ∷ rest) a.0
    ∙ ap (prepend c) (read_text-escape_xml s rest a.1)

-- A character that XML does not have is not escaped, and the document is refused: so it is with NUL.
refused : (rest : Text) → read_text none (escape_xml (0 ∷ []) ++ b'<' ∷ rest) ≡ none
unfolding read_text escape_xml escape_char
refused rest = refl
