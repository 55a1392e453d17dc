-- ===== src/Store/Notebook/Linked.antt =====
-- The references of a notebook lead to its evidence cards.
use valaf.Common.{
  All, In, ℕ, String, ◌≡◌, refl, sym, ap, ◌∙◌, Bool-cases, eqb_iff, Option, none, some, List, [],
  ◌∷◌, map, inl, inr, Bool, select, In-select, eqb, ltb,
}
use mathlib.Core.Path.{subst}
use valaf.Common.Effect.{Result, ok, err, no_rows, attempt}
use valaf.Store.Tables.{ObservationRow, HypothesisRow, AnalysisRow, IncidentRow, Tables}
use valaf.Store.Sql.{Conn, Sql, exec, read}
use valaf.Store.Sql.Rules.{Gives, Gives-bind, Gives-query, Gives-pure, Keeps, Keeps-query, Holds}
use valaf.Store.Retrieval.{insert_sorted, order_by, resolution_of}
use valaf.Store.Incidents.{row_query}
use valaf.Store.Notebook.{find_kept, if_analysed, or_not_found, assemble, load_notebook}
use valaf.Store.Notebook.Views.{ObservationView, HypothesisView, EvidenceView, Notebook, Json}
use valaf.Store.Notebook.Cards.{
  Refs, evidence_views, resolution_card, ref_of, add_ref, map_refs, index_views, cited_ids,
  related_ids, observation_rows, observation_view, hypothesis_rows, hypothesis_view,
  load_observations, load_hypotheses, load_evidence, load_analysis, load_resolution,
  load_similar_used, alert_views, find_current, ignore_error,
}

module _ {A B : Type 0} where
  pub All-map_of_In :
      (P : B → Type 0) (f : A → B) (xs : List A) → ((x : A) → In x xs → P (f x)) → All P (map f xs)
  All-map_of_In P f [] h = tt
  All-map_of_In P f (x ∷ xs) h = (h x (inl refl), All-map_of_In P f xs (λ y i. h y (inr i)))

module _ {A : Type 0} (less : A → A → Bool) where
  In-insert_sorted : (x a : A) (xs : List A) → In x (insert_sorted less a xs) → In x (a ∷ xs)
  unfolding insert_sorted
  In-insert_sorted x a [] i = i
  In-insert_sorted x a (b ∷ rest) i = elim (Bool-cases (less b a)) [
    | inl e ↦ later (In-insert_sorted x a rest) (rw e at i)
    | inr e ↦ rw e at i
  ]
    where
      later :
          (In x (insert_sorted less a rest) → In x (a ∷ rest))
          → In x (b ∷ insert_sorted less a rest)
          → In x (a ∷ b ∷ rest)
      later tail (inl h) = inr (inl h)
      later tail (inr j) = elim (tail j) [ inl h ↦ inl h | inr k ↦ inr (inr k) ]

  -- ORDER BY adds no row.
  pub In-order_by : (x : A) (xs : List A) → In x (order_by less xs) → In x xs
  unfolding order_by
  In-order_by x [] i = i
  In-order_by x (a ∷ rest) i = elim (In-insert_sorted x a (order_by less rest) i) [
    | inl h ↦ inl h
    | inr j ↦ inr (In-order_by x rest j)
  ]

module _ {A : Type 0} {P : Tables → Type 0} {Q : A → Tables → Type 0} where
  pub Gives-read : (f : Tables → A) → ((t : Tables) → P t → Q (f t) t) → Gives P (exec (read f)) Q
  Gives-read f h = Gives-query (read f) h

module _ {F : Type 0} where
  -- the reference names an evidence card of one of these items
  abbrev pub Shows : List (EvidenceView F) → List ℕ → String → Type 0
  Shows cards ids r = (v : EvidenceView F) × In v cards × (r ≡ v.ref) × In v.id ids

  -- an observation is a row, and its references are cards of items that the row cites
  abbrev pub IsLinked : Tables → List (EvidenceView F) → ObservationView → Type 0
  IsLinked t cards o =
      (row : ObservationRow) × In row t.observations
      × (o.body ≡ row.body)
      × All (Shows cards (cited_ids row.id t)) o.cite_refs

  abbrev pub IsLinkedHypothesis : Tables → List (EvidenceView F) → HypothesisView → Type 0
  IsLinkedHypothesis t cards h =
      (row : HypothesisRow) × In row t.hypotheses
      × (h.title ≡ row.title)
      × All (Shows cards (related_ids "supporting" row.id t)) h.supporting_refs
      × All (Shows cards (related_ids "contradicting" row.id t)) h.contradicting_refs

  -- every entry of the map is an evidence card
  abbrev IsIndex : List (EvidenceView F) → Refs → Type 0
  IsIndex cards refs =
      All (λ (p : ℕ × String). (v : EvidenceView F) × In v cards × (p.1 ≡ v.ref) × (p.0 ≡ v.id))
        refs

  index_views-IsIndex :
      (cards todo : List (EvidenceView F)) (refs : Refs)
      → ((v : EvidenceView F) → In v todo → In v cards)
      → IsIndex cards refs
      → IsIndex cards (index_views todo refs)
  unfolding index_views
  index_views-IsIndex cards [] refs h a = a
  index_views-IsIndex cards (v ∷ rest) refs h a =
      index_views-IsIndex cards rest ((v.id, v.ref) ∷ refs) (λ w i. h w (inr i))
        ((v, h v (inl refl), refl, refl), a)

  ref_of-Shows :
      (cards : List (EvidenceView F)) (refs : Refs) (id : ℕ) (r : String)
      → IsIndex cards refs
      → ref_of refs id ≡ some r
      → (v : EvidenceView F) × In v cards × (r ≡ v.ref) × (v.id ≡ id)
  unfolding ref_of
  ref_of-Shows cards [] id r a e = cc
  ref_of-Shows cards ((j, s) ∷ rest) id r a e = elim (Bool-cases (eqb j id)) [
    | inl h ↦
        let (v, i, p, q) = a.0 in
        let e' : some s ≡ some r = rw h at e in (v, i, cc, sym q ∙ (eqb_iff j id).0 h)
    | inr h ↦ ref_of-Shows cards rest id r a.1 (rw h at e)
  ]

  map_refs-Shows :
      (cards : List (EvidenceView F)) (refs : Refs) (ids all : List ℕ)
      → IsIndex cards refs
      → ((id : ℕ) → In id ids → In id all)
      → All (Shows cards all) (map_refs ids refs)
  unfolding map_refs add_ref
  map_refs-Shows cards refs [] all a h = tt
  map_refs-Shows cards refs (id ∷ rest) all a h =
      add (ref_of refs id) refl (map_refs-Shows cards refs rest all a (λ j i. h j (inr i)))
    where
      add :
          (o : Option String)
          → ref_of refs id ≡ o
          → All (Shows cards all) (map_refs rest refs)
          → All (Shows cards all) (add_ref o (map_refs rest refs))
      add none e tail = tail
      add (some r) e tail =
          let (v, i, p, q) = ref_of-Shows cards refs id r a e in
          ((v, i, p, rw q (h id (inl refl))), tail)

  observations-IsLinked :
      (cards : List (EvidenceView F)) (t : Tables) (id : ℕ)
      → All
          (IsLinked t cards)
          (map (observation_view t (index_views cards [])) (observation_rows id t))
  unfolding observation_view
  observations-IsLinked cards t id =
      All-map_of_In (IsLinked t cards) (observation_view t (index_views cards []))
        (observation_rows id t)
        (λ row i. (
          row,
          stored id t row i,
          refl,
          map_refs-Shows cards (index_views cards []) (cited_ids row.id t) (cited_ids row.id t)
              (index_views-IsIndex cards cards [] (λ v i. i) tt) (λ j k. k),
        ))
    where
      stored :
          (id : ℕ) (t : Tables) (row : ObservationRow)
          → In row (observation_rows id t)
          → In row t.observations
      stored id t row i =
          unfold observation_rows in
          (In-select (λ (o : ObservationRow). eqb o.analysis_id id) row t.observations
            (In-order_by (λ (a b : ObservationRow). ltb a.ordinal b.ordinal) row
              (select (λ (o : ObservationRow). eqb o.analysis_id id) t.observations) i)).0

  hypotheses-IsLinked :
      (cards : List (EvidenceView F)) (t : Tables) (id : ℕ)
      → All
          (IsLinkedHypothesis t cards)
          (map (hypothesis_view t (index_views cards [])) (hypothesis_rows id t))
  unfolding hypothesis_view
  hypotheses-IsLinked cards t id =
      All-map_of_In (IsLinkedHypothesis t cards) (hypothesis_view t (index_views cards []))
        (hypothesis_rows id t)
        (λ row i. (
          row,
          stored id t row i,
          refl,
          map_refs-Shows cards (index_views cards []) (related_ids "supporting" row.id t)
              (related_ids "supporting" row.id t) (index_views-IsIndex cards cards [] (λ v i. i) tt)
              (λ j k. k),
          map_refs-Shows cards (index_views cards []) (related_ids "contradicting" row.id t)
              (related_ids "contradicting" row.id t)
              (index_views-IsIndex cards cards [] (λ v i. i) tt) (λ j k. k),
        ))
    where
      stored :
          (id : ℕ) (t : Tables) (row : HypothesisRow)
          → In row (hypothesis_rows id t)
          → In row t.hypotheses
      stored id t row i =
          unfold hypothesis_rows in
          (In-select (λ (o : HypothesisRow). eqb o.analysis_id id) row t.hypotheses
            (In-order_by (λ (a b : HypothesisRow). ltb a.rank b.rank) row
              (select (λ (o : HypothesisRow). eqb o.analysis_id id) t.hypotheses) i)).0

abbrev pub Linked : {F : Type 0} → Tables → Notebook F → Type 0
Linked t nb =
    All (IsLinked t nb.evidence) nb.observations
    × All (IsLinkedHypothesis t nb.evidence) nb.hypotheses

module _ {A : Type 0} {P : Tables → Type 0} where
  Gives-attempt : (m : Sql A) → Keeps P m → Gives P (attempt m) (λ _. P)
  Gives-attempt m k = record {
    at = λ c r d p e. subst (λ (x : Conn). P x.tables) (ap (λ x. x.1) e) (k.at c p);
  }

  Gives-if_analysed :
      (o : Option AnalysisRow) (load : ℕ → Sql (List A)) (Q : List A → Tables → Type 0)
      → ((t : Tables) → P t → Q [] t)
      → ((id : ℕ) → Gives P (load id) Q)
      → Gives P (if_analysed o load) Q
  Gives-if_analysed none load Q n g = Gives-pure [] n
  Gives-if_analysed (some a) load Q n g = g a.id

module _ {F : Type 0} (json : Json F) (t0 : Tables) where
  abbrev At : Tables → Type 0
  At t = t ≡ t0

  Gives-load : {A : Type 0} (f : Tables → A) → Gives At (exec (read f)) (λ a t. (a ≡ f t0) × At t)
  Gives-load f = Gives-read f (λ t p. (ap f p, p))

  abbrev Observed : List (EvidenceView F) → List ObservationView → Tables → Type 0
  Observed cards obs t = All (IsLinked t0 cards) obs × At t

  abbrev Explained :
      List (EvidenceView F) → List ObservationView → List HypothesisView → Tables → Type 0
  Explained cards obs hyps t =
      All (IsLinked t0 cards) obs × All (IsLinkedHypothesis t0 cards) hyps × At t

  Gives-observations :
      (cards : List (EvidenceView F)) (o : Option AnalysisRow)
      → Gives At (if_analysed o (λ a. load_observations a (index_views cards []))) (Observed cards)
  unfolding load_observations
  Gives-observations cards o =
      Gives-if_analysed o _ (Observed cards) (λ t p. (tt, p))
        (λ id. Gives-read _ (λ t p. (rw p (observations-IsLinked cards t0 id), p)))

  Gives-hypotheses :
      (cards : List (EvidenceView F)) (obs : List ObservationView) (o : Option AnalysisRow)
      → Gives
          (Observed cards obs)
          (if_analysed o (λ a. load_hypotheses a (index_views cards [])))
          (Explained cards obs)
  unfolding load_hypotheses
  Gives-hypotheses cards obs o =
      Gives-if_analysed o _ (Explained cards obs) (λ t p. (p.0, tt, p.1))
        (λ id. Gives-read _ (λ t p. (p.0, rw p.1 (hypotheses-IsLinked cards t0 id), p.1)))

  row_query-At :
      {A : Type 0} (f : Tables → Option A) (t : Tables) → At t → Holds (λ _. At) (row_query f t)
  row_query-At {A} f t p = go (f t)
    where
      go :
          (o : Option A)
          → Holds {A = A} (λ _. At) (elim o [ none ↦ err no_rows | some a ↦ ok (a, t) ])
      go none = tt
      go (some a) = p

  Gives-incident : (id : ℕ) → Gives At (attempt (exec (row_query (find_kept id)))) (λ _. At)
  Gives-incident id = Gives-attempt _ (Keeps-query _ (row_query-At (find_kept id)))

  Gives-found : (found : Result IncidentRow) → Gives At (or_not_found found) (λ _. At)
  Gives-found (ok i) = Gives-pure i (λ t p. p)
  Gives-found (err e) = record { at = λ c a d p h. cc h }

  Gives-analysis : (id : ℕ) → Gives At (load_analysis id) (λ _. At)
  unfolding load_analysis
  Gives-analysis id =
      Gives-bind (attempt (exec (row_query (find_current id)))) _ (λ _. At)
        (Gives-attempt _ (Keeps-query _ (row_query-At (find_current id))))
        (λ r. Gives-pure (ignore_error r) (λ t p. p))

  Gives-similar :
      (P : Tables → Type 0) (o : Option AnalysisRow)
      → Gives P (if_analysed o load_similar_used) (λ _. P)
  unfolding load_similar_used
  Gives-similar P o = Gives-if_analysed o _ (λ _. P) (λ t p. p) (λ id. Gives-read _ (λ t p. p))

  Gives-notebook : (id : ℕ) → Gives At (load_notebook json id) (λ nb t. Linked t0 nb × At t)
  unfolding load_notebook load_evidence load_resolution
  Gives-notebook id =
      Gives-bind _ _ (λ _. At) (Gives-incident id)
        (λ found.
          Gives-bind _ _ (λ _. At) (Gives-found found)
            (λ (i : IncidentRow).
              Gives-bind _ _ (λ _. At) (Gives-read (alert_views i.id) (λ t p. p))
                (λ alerts.
                  Gives-bind _ _ (λ _. At) (Gives-read (evidence_views json i.id) (λ t p. p))
                    (λ cards.
                      Gives-bind _ _ (λ _. At) (Gives-analysis i.id)
                        (λ o. Gives-bind _ _ (Observed cards) (Gives-observations cards o) (λ obs.
                          Gives-bind _ _ (Explained cards obs) (Gives-hypotheses cards obs o)
                            (λ hyps.
                              Gives-bind _ _ (λ _. Explained cards obs hyps)
                                (Gives-read (λ t. resolution_card t (resolution_of i.id t))
                                  (λ t p. p))
                                (λ r.
                                  Gives-bind _ _ (λ _. Explained cards obs hyps)
                                    (Gives-similar (Explained cards obs hyps) o)
                                    (λ s.
                                      Gives-pure (assemble i alerts cards o obs hyps r s)
                                        (λ t p. ((p.0, p.1), p.2)))))))))))

  -- The references shown with an observation or a hypothesis of a loaded notebook are handles of
  -- evidence cards on the same page, and of items that the row of the observation or hypothesis
  -- refers to in the database.
  pub load_notebook-Linked :
      (id : ℕ) (c d : Conn) (nb : Notebook F)
      → load_notebook json id c ≡ (ok nb, d)
      → c.tables ≡ t0
      → Linked t0 nb
  load_notebook-Linked id c d nb e h = ((Gives-notebook id).at c nb d h e).0
