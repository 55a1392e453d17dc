-- ===== src/Store/Notebook/Shown.antt =====
-- The evidence cards of a page are the items of the incident, each once, in the order of capture.
use valaf.Common.{
  All, ℕ, suc, ◌+◌, ◌≤◌, String, Bool, true, false, ◌&&◌, ◌≡◌, refl, ap, ◌∙◌, arith, Bool-cases,
  List, [], ◌∷◌, inl, inr, eqb, count, select, lt→ltb, ltb→lt, if◌then◌else◌,
}
use valaf.Common.Effect.{ok}
use valaf.Core.Alert.{Time}
use valaf.Store.Tables.{EvidenceRow, Tables}
use valaf.Store.Sql.{up}
use valaf.Store.Retrieval.{handle, before, insert_sorted, order_by}
use valaf.Store.Notebook.{load_notebook}
use valaf.Store.Notebook.Views.{EvidenceView, Notebook, Json}
use valaf.Store.Notebook.Cards.{evidence_view, number_views, evidence_views, shown_evidence}
use valaf.Store.Notebook.Handles.{load_notebook-evidence}

module _ {A : Type 0} (less : A → A → Bool) (q : A → Bool) where
  count-insert_sorted :
      (a : A) (xs : List A)
      → count q (insert_sorted less a xs) ≡ (if q a then 1 else 0) + count q xs
  unfolding insert_sorted
  count-insert_sorted a [] = refl
  count-insert_sorted a (b ∷ rest) = elim (Bool-cases (less b a)) [
    | inl e ↦ rw e (omega (arith, count-insert_sorted a rest))
    | inr e ↦ rw e refl
  ]

  count-order_by : (xs : List A) → count q (order_by less xs) ≡ count q xs
  unfolding order_by
  count-order_by [] = refl
  count-order_by (a ∷ rest) =
      count-insert_sorted a (order_by less rest)
      ∙ ap (λ n. (if q a then 1 else 0) + n) (count-order_by rest)

count-select :
    {A : Type 0} (s q : A → Bool) (xs : List A) → count q (select s xs) ≡ count (λ x. s x && q x) xs
count-select s q [] = refl
count-select s q (x ∷ rest) = elim (Bool-cases (s x)) [
  | inl e ↦ rw e (ap (λ n. (if q x then 1 else 0) + n) (count-select s q rest))
  | inr e ↦ rw e (omega (arith, count-select s q rest))
]

-- each element was captured no later than those behind it
abbrev Ascending : List EvidenceRow → Type 0
Ascending [] = Unit
Ascending (a ∷ rest) =
    All (λ (b : EvidenceRow). a.captured_at ≤ b.captured_at) rest × Ascending rest

abbrev Behind : Time → List EvidenceRow → Type 0
Behind n rows = All (λ (b : EvidenceRow). n ≤ b.captured_at) rows

Behind-le : (m n : Time) (rows : List EvidenceRow) → m ≤ n → Behind n rows → Behind m rows
Behind-le m n [] h a = tt
Behind-le m n (r ∷ rest) h a = (let k = a.0 in omega arith, Behind-le m n rest h a.1)

Behind-insert_sorted :
    (n : Time) (a : EvidenceRow) (rows : List EvidenceRow)
    → n ≤ a.captured_at
    → Behind n rows
    → Behind n (insert_sorted before a rows)
unfolding insert_sorted
Behind-insert_sorted n a [] h k = (h, tt)
Behind-insert_sorted n a (b ∷ rest) h k = elim (Bool-cases (before b a)) [
  | inl e ↦ rw e (k.0, Behind-insert_sorted n a rest h k.1)
  | inr e ↦ rw e (h, k)
]

before_le : (a b : EvidenceRow) → before a b ≡ true → a.captured_at ≤ b.captured_at
before_le a b h = grind (arith, h, ltb→lt a.captured_at b.captured_at)

not_before_le : (a b : EvidenceRow) → before b a ≡ false → a.captured_at ≤ b.captured_at
not_before_le a b h = grind (arith, h, lt→ltb b.captured_at a.captured_at)

Ascending-insert_sorted :
    (a : EvidenceRow) (rows : List EvidenceRow)
    → Ascending rows
    → Ascending (insert_sorted before a rows)
unfolding insert_sorted
Ascending-insert_sorted a [] k = (tt, tt)
Ascending-insert_sorted a (b ∷ rest) k = elim (Bool-cases (before b a)) [
  | inl e ↦ rw e (
    Behind-insert_sorted b.captured_at a rest (before_le b a e) k.0,
    Ascending-insert_sorted a rest k.1,
  )
  | inr e ↦
      let h = not_before_le a b e in rw e ((h, Behind-le a.captured_at b.captured_at rest h k.0), k)
]

Ascending-order_by : (rows : List EvidenceRow) → Ascending (order_by before rows)
unfolding order_by
Ascending-order_by [] = tt
Ascending-order_by (a ∷ rest) =
    Ascending-insert_sorted a (order_by before rest) (Ascending-order_by rest)

module _ {F : Type 0} where
  -- the handles count from the number after `i`, and the times of capture do not fall
  abbrev pub Numbered : ℕ → List (EvidenceView F) → Type 0
  Numbered i [] = Unit
  Numbered i (v ∷ rest) =
      (v.ref ≡ handle (suc i))
      × All (λ w. v.captured_at ≤ w.captured_at) rest
      × Numbered (suc i) rest

  -- how many cards, or rows of an incident, have the given content
  abbrev pub cards_with : (ℕ → String → String → Bool → Bool) → List (EvidenceView F) → ℕ
  cards_with p views = count (λ v. p v.id v.collector v.kind v.is_valid) views

abbrev pub rows_with : (ℕ → String → String → Bool → Bool) → ℕ → List EvidenceRow → ℕ
rows_with p id rows = count (λ r. eqb r.incident_id id && p r.id r.collector r.kind r.is_valid) rows

module _ {F : Type 0} (json : Json F) (t : Tables) where
  Behind-number_views :
      (n : Time) (i : ℕ) (rows : List EvidenceRow)
      → Behind n rows
      → All (λ v. n ≤ v.captured_at) (number_views json t i rows)
  unfolding number_views evidence_view
  Behind-number_views n i [] a = tt
  Behind-number_views n i (r ∷ rest) a = (a.0, Behind-number_views n (suc i) rest a.1)

  number_views-Numbered :
      (i : ℕ) (rows : List EvidenceRow) → Ascending rows → Numbered i (number_views json t i rows)
  unfolding number_views evidence_view
  number_views-Numbered i [] a = tt
  number_views-Numbered i (r ∷ rest) a = (
    refl,
    Behind-number_views r.captured_at (suc i) rest a.0,
    number_views-Numbered (suc i) rest a.1,
  )

  cards_with-number_views :
      (p : ℕ → String → String → Bool → Bool) (i : ℕ) (rows : List EvidenceRow)
      → cards_with p (number_views json t i rows)
        ≡ count (λ r. p r.id r.collector r.kind r.is_valid) rows
  unfolding number_views evidence_view
  cards_with-number_views p i [] = refl
  cards_with-number_views p i (r ∷ rest) =
      ap (λ n. (if p r.id r.collector r.kind r.is_valid then 1 else 0) + n)
        (cards_with-number_views p (suc i) rest)

  -- A notebook that is loaded on a connection that does not fail shows every item of evidence of its
  -- incident exactly once and nothing else, the flagged items too: of any id, collector, kind and
  -- validity there are as many cards as rows. The cards have the handles E1, E2, ... one after the
  -- other, and no card was captured before the one in front of it.
  pub load_notebook_shows :
      (id : ℕ) (nb : Notebook F)
      → (load_notebook json id (up t)).0 ≡ ok nb
      → ((p : ℕ → String → String → Bool → Bool)
          → cards_with p nb.evidence ≡ rows_with p id t.evidence_items)
        × Numbered 0 nb.evidence
  unfolding evidence_views
  load_notebook_shows id nb loaded =
      let shown = load_notebook-evidence json id t nb loaded in
      let mine : EvidenceRow → Bool = λ r. eqb r.incident_id id in
      (
        λ p.
            ap (cards_with p) shown
            ∙ cards_with-number_views p 0 (shown_evidence id t)
            ∙ count-order_by before (λ (r : EvidenceRow). p r.id r.collector r.kind r.is_valid)
                (select mine t.evidence_items)
            ∙ count-select mine (λ (r : EvidenceRow). p r.id r.collector r.kind r.is_valid)
                t.evidence_items,
        rw shown (
            number_views-Numbered 0 (shown_evidence id t)
              (Ascending-order_by (select mine t.evidence_items))),
      )
