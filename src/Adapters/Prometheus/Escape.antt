-- ===== src/Adapters/Prometheus/Escape.antt =====
-- A host cannot leave the quotes of a label matcher.
use valaf.Common.{
  ℕ, Bool, true, false, ◌||◌, ◌≡◌, refl, sym, ap, ◌∙◌, Option, none, some, [], ◌∷◌, ◌++◌, All, eqb,
  eqb_iff, Bool-cases, inl, inr, if◌then◌else◌,
}
use mathlib.Core.List.{append_assoc}
use valaf.Common.Text.{Text, replace_char}
use valaf.Adapters.Prometheus.Queries.{escape_label}

abbrev prepend : ℕ → Option (Text × Text) → Option (Text × Text)
prepend c none = none
prepend c (some (t, rest)) = some (c ∷ t, rest)

-- a quoted string of PromQL after its opening quote, and what follows its closing quote; the flag
-- says that a backslash came before. A line does not end inside of it, and of the escapes only those
-- of a quote and of a backslash are read.
unfoldable pub read_quoted : Bool → Text → Option (Text × Text)
read_quoted escaped [] = none
read_quoted true (c ∷ t) =
    let rest = read_quoted false t in if eqb c b'"' || eqb c b'\\' then prepend c rest else none
read_quoted false (c ∷ t) =
    let plain = read_quoted false t in
    let hidden = read_quoted true t in
    if eqb c b'"'
    then some ([], t)
    else if eqb c b'\\'
    then hidden
    else if eqb c b'\n'
    then none
    else prepend c plain

-- what becomes of a character
hide : ℕ → Text
hide c =
    if eqb c b'\\' then b'\\' ∷ b'\\' ∷ [] else if eqb c b'"' then b'\\' ∷ b'"' ∷ [] else c ∷ []

escape_label-cons : (c : ℕ) (v : Text) → escape_label (c ∷ v) ≡ hide c ++ escape_label v
unfolding escape_label replace_char hide
escape_label-cons c v = elim (Bool-cases (eqb c b'\\')) [
  | inl e ↦ rw e refl
  | inr e ↦ rw e (elim (Bool-cases (eqb c b'"')) [ inl f ↦ rw f refl | inr f ↦ rw f refl ])
]

read_hide :
    (c : ℕ) (t u rest : Text)
    → eqb c b'\n' ≡ false
    → read_quoted false t ≡ some (u, rest)
    → read_quoted false (hide c ++ t) ≡ some (c ∷ u, rest)
unfolding read_quoted hide
read_hide c t u rest n h = elim (Bool-cases (eqb c b'\\')) [
  | inl e ↦ rw e (rw h (ap (λ d. some (d ∷ u, rest)) (sym ((eqb_iff c b'\\').0 e))))
  | inr e ↦ rw e (elim (Bool-cases (eqb c b'"')) [
    | inl f ↦ rw f (rw h (ap (λ d. some (d ∷ u, rest)) (sym ((eqb_iff c b'"').0 f))))
    | inr f ↦ rw f (rw f (rw e (rw n (rw h refl))))
  ])
]

-- The escaped text of a host without line breaks, read as a quoted string of PromQL up to its closing
-- quote, is the host: it cannot close the quotes and so change the query.
pub read_quoted-escape_label :
    (v rest : Text)
    → All (λ c. eqb c b'\n' ≡ false) v
    → read_quoted false (escape_label v ++ b'"' ∷ rest) ≡ some (v, rest)
unfolding read_quoted escape_label replace_char
read_quoted-escape_label [] rest a = refl
read_quoted-escape_label (c ∷ v) rest a =
    ap (λ t. read_quoted false (t ++ b'"' ∷ rest)) (escape_label-cons c v)
    ∙ ap (read_quoted false) (append_assoc (hide c) (escape_label v) (b'"' ∷ rest))
    ∙ read_hide c (escape_label v ++ b'"' ∷ rest) v rest a.0 (read_quoted-escape_label v rest a.1)
