-- ===== src/Common/Order.antt =====
-- The order of Go's `sort.Strings`: bytes of UTF-8 compare as the numbers of the characters do. A
-- sort by it does not depend on the order that the texts come in.
use Prim.Native.Char.{code}
use Prim.Native.Nat.{compare, Ordering}
use Prim.Native.String.{String}
use mathlib.Core.Path.{◌≡◌, refl, sym, ap, ◌∙◌}
use mathlib.Core.Logic.{inl, inr}
use mathlib.Core.Bool.{Bool, true, false, ◌&&◌, ◌||◌}
use mathlib.Core.List.{List, [], ◌∷◌, foldr, Perm}
use mathlib.Core.List.Perm
use mathlib.Core.List.{is_set}
use mathlib.Core.HLevel.{Discrete, hedberg}
use native.Mathlib.Omega.{arith}
use text.Mathlib.Text.{◌==◌}
use text.Mathlib.TextEquality.{codes_equal, eq_iff}
use valaf.Common.Tests.{ltb, eqb, if◌then◌else◌, Bool-cases}

unfoldable pub less_text : String → String → Bool
less_text String.[] String.[] = false
less_text String.[] (String.◌∷◌ d t) = true
less_text (String.◌∷◌ c s) String.[] = false
less_text (String.◌∷◌ c s) (String.◌∷◌ d t) =
    ltb (code c) (code d) || (eqb (code c) (code d) && less_text s t)

less_text_asym : (s t : String) → less_text s t ≡ true → less_text t s ≡ false
unfolding less_text
less_text_asym String.[] String.[] h = refl
less_text_asym String.[] (String.◌∷◌ d t) h = refl
less_text_asym (String.◌∷◌ c s) String.[] h = cc
less_text_asym (String.◌∷◌ c s) (String.◌∷◌ d t) h = ground (arith, less_text_asym s t)

less_text_step :
    (a b c : String) → less_text c a ≡ false → less_text c b ≡ true → less_text a b ≡ true
unfolding less_text
less_text_step a String.[] String.[] h k = cc
less_text_step String.[] (String.◌∷◌ e b) String.[] h k = refl
less_text_step (String.◌∷◌ e a) (String.◌∷◌ f b) String.[] h k = cc
less_text_step a String.[] (String.◌∷◌ d c) h k = cc
less_text_step String.[] (String.◌∷◌ f b) (String.◌∷◌ d c) h k = refl
less_text_step (String.◌∷◌ e a) (String.◌∷◌ f b) (String.◌∷◌ d c) h k =
    ground (arith, less_text_step a b c)

less_text_total : (s t : String) → less_text s t ≡ false → less_text t s ≡ false → s ≡ t
unfolding less_text
less_text_total String.[] String.[] h k = refl
less_text_total String.[] (String.◌∷◌ d t) h k = cc
less_text_total (String.◌∷◌ c s) String.[] h k = cc
less_text_total (String.◌∷◌ c s) (String.◌∷◌ d t) h k =
    let e : compare (code c) (code d) ≡ Ordering.eq = ground arith in
    let h' : less_text s t ≡ false = ground arith in
    let k' : less_text t s ≡ false = ground arith in
    λ i. String.◌∷◌ (codes_equal c d e i) (less_text_total s t h' k' i)

-- inserting before the first text that is not smaller
unfoldable pub insert_text : String → List String → List String
insert_text a [] = a ∷ []
insert_text a (b ∷ rest) = if less_text b a then b ∷ insert_text a rest else a ∷ b ∷ rest

unfoldable pub sort_texts : List String → List String
unfolding insert_text
sort_texts [] = []
sort_texts (a ∷ rest) = insert_text a (sort_texts rest)

-- two texts at the head of a list
insert_text_pair :
    (a b : String) (xs : List String)
    → (if less_text b a then b ∷ a ∷ xs else a ∷ b ∷ xs)
      ≡ (if less_text a b then a ∷ b ∷ xs else b ∷ a ∷ xs)
insert_text_pair a b xs = elim (Bool-cases (less_text b a)) [
  | inl e ↦ rw e (rw (less_text_asym b a e) refl)
  | inr e ↦ rw e (elim (Bool-cases (less_text a b)) [
    | inl f ↦ rw f refl
    | inr f ↦ rw f (rw (less_text_total a b f e) refl)
  ])
]

insert_text_comm :
    (a b : String) (xs : List String)
    → insert_text a (insert_text b xs) ≡ insert_text b (insert_text a xs)
unfolding insert_text
insert_text_comm a b [] = insert_text_pair a b []
insert_text_comm a b (c ∷ rest) = elim (Bool-cases (less_text c b)) [
  | inl e ↦ elim (Bool-cases (less_text c a)) [
    | inl f ↦ rw e (rw f (rw e (ap (λ xs. c ∷ xs) (insert_text_comm a b rest))))
    | inr f ↦ rw e (rw f (rw (less_text_step a b c f e) (rw e refl)))
  ]
  | inr e ↦ elim (Bool-cases (less_text c a)) [
    | inl f ↦ rw e (rw f (rw (less_text_step b a c e f) (rw e refl)))
    | inr f ↦ rw e (rw f (rw e (insert_text_pair a b (c ∷ rest))))
  ]
]

String-Discrete : Discrete String
String-Discrete s t = elim (Bool-cases (s == t)) [
  | inl e ↦ Dec.yes ((eq_iff s t).0 e)
  | inr e ↦ Dec.no (λ p. let q : (s == t) ≡ true = (eq_iff s t).1 p in cc)
]

sort_texts-foldr : (xs : List String) → sort_texts xs ≡ foldr insert_text [] xs
unfolding sort_texts
sort_texts-foldr [] = refl
sort_texts-foldr (x ∷ xs) = ap (insert_text x) (sort_texts-foldr xs)

-- Sorting forgets the order in which the texts come.
pub sort_texts-perm : (xs ys : List String) → Perm xs ys → sort_texts xs ≡ sort_texts ys
sort_texts-perm xs ys p =
    sort_texts-foldr xs
    ∙ Perm.foldr-eq (is_set (hedberg String-Discrete)) insert_text insert_text_comm p []
    ∙ sym (sort_texts-foldr ys)
