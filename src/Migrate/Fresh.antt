-- ===== src/Migrate/Fresh.antt =====
-- No pending version is on record, none comes twice, and all are on record once they are recorded.
use valaf.Common.{
  In, String, Bool, true, false, ◌||◌, ◌≡◌, refl, sym, ap, List, [], ◌∷◌, ◌++◌, map, select, ◌==◌,
  eq_iff, Bool-cases, inl, inr, arith,
}
use mathlib.Core.Path.{subst}
use valaf.Common.Order.{less_text, insert_text, sort_texts}
use valaf.Migrate.{File, contains, is_pending, pending}

-- sorting keeps what is there
In-insert_text : (x a : String) (xs : List String) → In x (insert_text a xs) → In x (a ∷ xs)
unfolding insert_text
In-insert_text x a [] i = i
In-insert_text x a (b ∷ rest) i = elim (Bool-cases (less_text b a)) [
  | inl e ↦ later (In-insert_text x a rest) (rw e at i)
  | inr e ↦ rw e at i
]
  where
    later :
        (In x (insert_text a rest) → In x (a ∷ rest))
        → In x (b ∷ insert_text a rest)
        → In x (a ∷ b ∷ rest)
    later tail (inl h) = inr (inl h)
    later tail (inr j) = elim (tail j) [ inl h ↦ inl h | inr k ↦ inr (inr k) ]

insert_text-In : (x a : String) (xs : List String) → In x (a ∷ xs) → In x (insert_text a xs)
unfolding insert_text
insert_text-In x a [] i = i
insert_text-In x a (b ∷ rest) i = elim (Bool-cases (less_text b a)) [
  | inl e ↦ rw e (place (insert_text-In x a rest) i)
  | inr e ↦ rw e i
]
  where
    place :
        (In x (a ∷ rest) → In x (insert_text a rest))
        → In x (a ∷ b ∷ rest)
        → In x (b ∷ insert_text a rest)
    place tail (inl h) = inr (tail (inl h))
    place tail (inr (inl h)) = inl h
    place tail (inr (inr k)) = inr (tail (inr k))

In-sort_texts : (x : String) (xs : List String) → In x (sort_texts xs) → In x xs
unfolding sort_texts
In-sort_texts x [] i = i
In-sort_texts x (a ∷ rest) i = elim (In-insert_text x a (sort_texts rest) i) [
  | inl h ↦ inl h
  | inr j ↦ inr (In-sort_texts x rest j)
]

sort_texts-In : (x : String) (xs : List String) → In x xs → In x (sort_texts xs)
unfolding sort_texts
sort_texts-In x [] i = i
sort_texts-In x (a ∷ rest) (inl h) = insert_text-In x a (sort_texts rest) (inl h)
sort_texts-In x (a ∷ rest) (inr j) =
    insert_text-In x a (sort_texts rest) (inr (sort_texts-In x rest j))

abbrev pub AreDistinct : List String → Type 0
AreDistinct [] = Unit
AreDistinct (x ∷ xs) = (In x xs → ⊥) × AreDistinct xs

insert_text-AreDistinct :
    (a : String) (xs : List String)
    → (In a xs → ⊥)
    → AreDistinct xs
    → AreDistinct (insert_text a xs)
unfolding insert_text
insert_text-AreDistinct a [] n d = (n, d)
insert_text-AreDistinct a (b ∷ rest) n d = elim (Bool-cases (less_text b a)) [
  | inl e ↦ rw e (
    λ i. elim (In-insert_text b a rest i) [ inl h ↦ n (inl (sym h)) | inr j ↦ d.0 j ],
    insert_text-AreDistinct a rest (λ i. n (inr i)) d.1,
  )
  | inr e ↦ rw e (n, d)
]

sort_texts-AreDistinct : (xs : List String) → AreDistinct xs → AreDistinct (sort_texts xs)
unfolding sort_texts
sort_texts-AreDistinct [] d = d
sort_texts-AreDistinct (a ∷ rest) d =
    insert_text-AreDistinct a (sort_texts rest) (λ i. d.0 (In-sort_texts a rest i))
      (sort_texts-AreDistinct rest d.1)

names : List File → List String
names = map (λ f. f.name)

In-names-select :
    (p : File → Bool) (x : String) (files : List File)
    → In x (names (select p files))
    → In x (names files)
unfolding names
In-names-select p x [] i = i
In-names-select p x (f ∷ rest) i = elim (Bool-cases (p f)) [
  | inl e ↦ elim (rw e at i) [ inl h ↦ inl h | inr j ↦ inr (In-names-select p x rest j) ]
  | inr e ↦ inr (In-names-select p x rest (rw e at i))
]

select-AreDistinct :
    (p : File → Bool) (files : List File)
    → AreDistinct (names files)
    → AreDistinct (names (select p files))
unfolding names
select-AreDistinct p [] d = d
select-AreDistinct p (f ∷ rest) d = elim (Bool-cases (p f)) [
  | inl e ↦ rw e (λ i. d.0 (In-names-select p f.name rest i), select-AreDistinct p rest d.1)
  | inr e ↦ rw e (select-AreDistinct p rest d.1)
]

contains-append :
    (ws vs : List String) (x : String) → contains (ws ++ vs) x ≡ (contains ws x || contains vs x)
contains-append [] vs x = refl
contains-append (w ∷ ws) vs x = ground (arith, contains-append ws vs x)

In-contains : (x : String) (xs : List String) → In x xs → contains xs x ≡ true
In-contains x [] i = elim i [ ]
In-contains x (y ∷ ys) (inl h) = ground (arith, (eq_iff y x).1 (sym h))
In-contains x (y ∷ ys) (inr j) = ground (arith, In-contains x ys j)

-- every version is new when its turn comes
abbrev pub IsFresh : List String → List String → Type 0
IsFresh ws [] = Unit
IsFresh ws (v ∷ rest) = (contains ws v ≡ false) × IsFresh (ws ++ v ∷ []) rest

AreDistinct-IsFresh :
    (ws vs : List String)
    → AreDistinct vs
    → ((x : String) → In x vs → contains ws x ≡ false)
    → IsFresh ws vs
AreDistinct-IsFresh ws [] d h = tt
AreDistinct-IsFresh ws (v ∷ rest) d h =
    (h v (inl refl), AreDistinct-IsFresh (ws ++ v ∷ []) rest d.1 (λ x i. still x i (h x (inr i))))
  where
    still : (x : String) → In x rest → contains ws x ≡ false → contains (ws ++ v ∷ []) x ≡ false
    still x i k = elim (Bool-cases (v == x)) [
      | inl e ↦ elim (d.0 (subst (λ y. In y rest) (sym ((eq_iff v x).0 e)) i)) [ ]
      | inr e ↦ ground (arith, contains-append ws (v ∷ []) x)
    ]

-- what is selected is not on record
names-select-new :
    (applied : List String) (x : String) (files : List File)
    → In x (names (select (is_pending applied) files))
    → contains applied x ≡ false
unfolding names
names-select-new applied x [] i = elim i [ ]
names-select-new applied x (f ∷ rest) i = elim (Bool-cases (is_pending applied f)) [
  | inl e ↦ elim (rw e at i) [ inl h ↦ rw h (new e) | inr j ↦ names-select-new applied x rest j ]
  | inr e ↦ names-select-new applied x rest (rw e at i)
]
  where
    new : is_pending applied f ≡ true → contains applied f.name ≡ false
    new e = unfold is_pending in ground arith

-- Each pending version is new, and none comes twice.
pub pending-IsFresh :
    (files : List File) (ws : List String)
    → AreDistinct (map (λ f. f.name) files)
    → IsFresh ws (pending files ws)
unfolding pending names
pending-IsFresh files ws d =
    AreDistinct-IsFresh ws (sort_texts (names (select (is_pending ws) files)))
      (sort_texts-AreDistinct (names (select (is_pending ws) files))
        (select-AreDistinct (is_pending ws) files d))
      (λ x i.
        names-select-new ws x files (In-sort_texts x (names (select (is_pending ws) files)) i))

In-names :
    (p : File → Bool) (f : File) (files : List File)
    → In f files
    → p f ≡ true
    → In f.name (names (select p files))
unfolding names
In-names p f [] i e = elim i [ ]
In-names p f (g ∷ rest) (inl h) e = rw (sym h) (rw e (inl refl))
In-names p f (g ∷ rest) (inr j) e = elim (Bool-cases (p g)) [
  | inl k ↦ rw k (inr (In-names p f rest j e))
  | inr k ↦ rw k (In-names p f rest j e)
]

none_pending :
    (ws vs : List String) (f : File)
    → (is_pending ws f ≡ true → contains vs f.name ≡ true)
    → is_pending (ws ++ vs) f ≡ false
unfolding is_pending
none_pending ws vs f h = ground (arith, contains-append ws vs f.name)

select_none :
    (p : File → Bool) (files : List File)
    → ((f : File) → In f files → p f ≡ false)
    → select p files ≡ []
select_none p [] h = refl
select_none p (f ∷ rest) h = rw (h f (inl refl)) (select_none p rest (λ g i. h g (inr i)))

-- Once the pending versions are on record, none is pending.
pub pending-append :
    (files : List File) (ws : List String) → pending files (ws ++ pending files ws) ≡ []
unfolding pending names sort_texts
pending-append files ws =
    ap (λ fs. sort_texts (names fs))
      (select_none (is_pending (ws ++ pending files ws)) files (λ f i.
        none_pending ws (pending files ws) f (λ e. In-contains f.name (pending files ws) (
          sort_texts-In f.name (names (select (is_pending ws) files))
            (In-names (is_pending ws) f files i e)))))
