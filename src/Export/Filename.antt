-- ===== src/Export/Filename.antt =====
-- The name of a download is safe to hand to a browser and to a file system.
use valaf.Common.{
  ℕ, zero, suc, ◌≤◌, Bool, true, false, ◌||◌, ◌≡◌, refl, sym, ap, [], ◌∷◌, ◌++◌, All, All-append,
  eqb, ltb, length, length-append, Bool-cases, inl, inr, arith, lt→ltb,
}
use mathlib.Core.List.{reverse, reverse_aux, append_assoc}
use valaf.Common.Text.{Text, codes, drop_char, to_lower}
use valaf.Store.Retrieval.{take}
use valaf.Export.{is_slug, replace_runs, trim_hyphens, cut, or_incident, slug_of, filename}

-- a lower-case letter, a digit or a hyphen
abbrev pub Safe : ℕ → Type 0
Safe c = (is_slug c || eqb c b'-') ≡ true

replace_runs-Safe : (inside : Bool) (t : Text) → All Safe (replace_runs inside t)
unfolding replace_runs
replace_runs-Safe inside [] = tt
replace_runs-Safe inside (c ∷ t) = elim (Bool-cases (is_slug c)) [
  | inl e ↦ rw e (rw e refl, replace_runs-Safe false t)
  | inr e ↦ rw e (elim (Bool-cases inside) [
    | inl i ↦ rw i (replace_runs-Safe true t)
    | inr i ↦ rw i (refl, replace_runs-Safe true t)
  ])
]

take-Safe : (n : ℕ) (t : Text) → All Safe t → All Safe (take n t)
take-Safe zero t a = tt
take-Safe (suc n) [] a = tt
take-Safe (suc n) (c ∷ t) a = (a.0, take-Safe n t a.1)

length-take_le : (n : ℕ) (t : Text) → length (take n t) ≤ n
length-take_le zero t = omega arith
length-take_le (suc n) [] = omega arith
length-take_le (suc n) (c ∷ t) = let h = length-take_le n t in omega arith

reverse_aux-Safe : (t u : Text) → All Safe t → All Safe u → All Safe (reverse_aux t u)
reverse_aux-Safe [] u a b = b
reverse_aux-Safe (c ∷ t) u a b = reverse_aux-Safe t (c ∷ u) a.1 (a.0, b)

reverse-Safe : (t : Text) → All Safe t → All Safe (reverse t)
reverse-Safe t a = reverse_aux-Safe t [] a tt

drop_char-Safe : (d : ℕ) (t : Text) → All Safe t → All Safe (drop_char d t)
drop_char-Safe d [] a = tt
drop_char-Safe d (c ∷ t) a = elim (Bool-cases (eqb c d)) [
  | inl e ↦ rw e (drop_char-Safe d t a.1)
  | inr e ↦ rw e a
]

trim_hyphens-Safe : (t : Text) → All Safe t → All Safe (trim_hyphens t)
unfolding trim_hyphens
trim_hyphens-Safe t a = reverse-Safe (drop_char b'-' (reverse (drop_char b'-' t))) (
    drop_char-Safe b'-' (reverse (drop_char b'-' t))
      (reverse-Safe (drop_char b'-' t) (drop_char-Safe b'-' t a)))

cut-Safe : (n : ℕ) (t : Text) → All Safe t → All Safe (cut n t)
cut-Safe n t a = elim (Bool-cases (ltb n (length t))) [
  | inl e ↦ rw e (take-Safe n t a)
  | inr e ↦ rw e a
]

length-cut_le : (n : ℕ) (t : Text) → length (cut n t) ≤ n
length-cut_le n t = elim (Bool-cases (ltb n (length t))) [
  | inl e ↦ rw e (length-take_le n t)
  | inr e ↦ rw e (grind (arith, lt→ltb n (length t)))
]

or_incident-Safe : (t : Text) → All Safe t → All Safe (or_incident t)
or_incident-Safe [] a = (refl, (refl, (refl, (refl, (refl, (refl, (refl, (refl, tt))))))))
or_incident-Safe (c ∷ t) a = a

length-or_incident_le : (t : Text) → length t ≤ 60 → length (or_incident t) ≤ 60
length-or_incident_le [] h = omega arith
length-or_incident_le (c ∷ t) h = h

slug_of-Safe : (title : Text) → All Safe (slug_of title)
unfolding slug_of
slug_of-Safe title =
    let runs = replace_runs false (to_lower title) in
    or_incident-Safe (cut 60 (trim_hyphens runs)) (
      cut-Safe 60 (trim_hyphens runs)
        (trim_hyphens-Safe runs (replace_runs-Safe false (to_lower title))))

length-slug_of_le : (title : Text) → length (slug_of title) ≤ 60
unfolding slug_of
length-slug_of_le title =
    let slug = trim_hyphens (replace_runs false (to_lower title)) in
    length-or_incident_le (cut 60 slug) (length-cut_le 60 slug)

-- Whatever the title is, the name of a download of an incident whose id has lower-case letters, digits
-- and hyphens only is "valaf-", a stem of such characters, a dot and the extension, with at most 75
-- characters before the dot. So there is no separator of paths, no quote and no second dot before the
-- extension.
pub filename-Safe :
    (title id e : Text)
    → All Safe id
    → (stem : Text) × (filename title id e ≡ codes "valaf-" ++ (stem ++ b'.' ∷ e))
      × All Safe stem
      × (length (codes "valaf-" ++ stem) ≤ 75)
unfolding filename
filename-Safe title id e a = (
  slug_of title ++ b'-' ∷ cut 8 id,
  ap (λ t. codes "valaf-" ++ t) (sym (append_assoc (slug_of title) (b'-' ∷ cut 8 id) (b'.' ∷ e))),
  All-append Safe (slug_of title) (b'-' ∷ cut 8 id) (slug_of-Safe title) (refl, cut-Safe 8 id a),
  let s = length-slug_of_le title in
      let i = length-cut_le 8 id in
      rw (length-append (slug_of title) (b'-' ∷ cut 8 id)) (omega arith),
)
