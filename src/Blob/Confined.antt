-- ===== src/Blob/Confined.antt =====
-- No key leaves the root of the local store.
use valaf.Common.{
  All, Bool, true, false, ◌||◌, ◌≡◌, ◌≢◌, refl, ap, ◌∙◌, List, [], ◌∷◌, ◌++◌, Bool-cases, inl, inr,
  arith,
}
use mathlib.Core.List.{reverse_aux, append-nil}
use valaf.Common.Text.{split, Text, codes, same, contains_text}
use valaf.Common.Effect.{ok}
use valaf.Blob.Disk.{Path_}
use valaf.Blob.{pop, clean, is_below, path}

-- a name that stays where it is: not empty, and no dots
abbrev pub IsPlain : Text → Type 0
IsPlain n = (same n [] || (same n (codes ".") || same n (codes ".."))) ≡ false

All-reverse_aux :
    {A : Type 0} (P : A → Type 0) (xs acc : List A)
    → All P xs
    → All P acc
    → All P (reverse_aux xs acc)
All-reverse_aux P [] acc a b = b
All-reverse_aux P (x ∷ xs) acc a b = All-reverse_aux P xs (x ∷ acc) a.1 (a.0, b)

All-pop : (stack : List Text) → All IsPlain stack → All IsPlain (pop stack)
All-pop [] a = a
All-pop (m ∷ below) a = a.1

clean-All : (stack names : List Text) → All IsPlain stack → All IsPlain (clean stack names)
unfolding clean
clean-All stack [] a = All-reverse_aux IsPlain stack [] a tt
clean-All stack (n ∷ rest) a = elim (Bool-cases (same n [] || same n (codes "."))) [
  | inl e ↦ rw e (clean-All stack rest a)
  | inr e ↦ rw e (elim (Bool-cases (same n (codes ".."))) [
    | inl f ↦ rw f (clean-All (pop stack) rest (All-pop stack a))
    | inr f ↦ rw f (clean-All (n ∷ stack) rest (ground arith, a))
  ])
]

is_below_self : (root : Path_) → is_below root root ≡ false
unfolding is_below
is_below_self [] = refl
is_below_self (m ∷ root) = ground (arith, is_below_self root)

-- The path of a key, if the key is accepted, is the root followed by at least one name, and none of
-- the names after the root is empty, a dot or two dots: no key leads out of the root or to it.
pub path-confined :
    (root : Path_) (key : Text) (full : Path_)
    → path root key ≡ ok full
    → (rest : List Text) × (full ≡ root ++ rest) × (rest ≢ []) × All IsPlain rest
unfolding path
path-confined root key full h = elim (Bool-cases (same key [] || contains_text key (codes ".."))) [
  | inl e ↦ cc (rw e at h)
  | inr e ↦ elim (Bool-cases (is_below root (root ++ clean [] (split b'/' [] (b'/' ∷ key))))) [
    | inl f ↦ (
      clean [] (split b'/' [] (b'/' ∷ key)),
      accepted (rw f at (rw e at h)),
      λ n. outside (is_below-root n) f,
      clean-All [] (split b'/' [] (b'/' ∷ key)) tt,
    )
    | inr f ↦ cc (rw f at (rw e at h))
  ]
]
  where
    accepted :
        ok (root ++ clean [] (split b'/' [] (b'/' ∷ key))) ≡ ok full
        → full ≡ root ++ clean [] (split b'/' [] (b'/' ∷ key))
    accepted k = cc

    is_below-root :
        clean [] (split b'/' [] (b'/' ∷ key)) ≡ []
        → is_below root (root ++ clean [] (split b'/' [] (b'/' ∷ key))) ≡ false
    is_below-root n =
        ap (is_below root) (ap (λ r. root ++ r) n ∙ append-nil root) ∙ is_below_self root

    outside : {b : Bool} → b ≡ false → b ≡ true → ⊥
    outside n f = cc
