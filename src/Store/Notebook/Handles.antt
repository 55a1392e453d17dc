-- ===== src/Store/Notebook/Handles.antt =====
-- What a page shows of an incident on a connection that does not fail, and how its handles compare
-- with those that the AI provider was given.
use valaf.Common.{
  All, ℕ, suc, String, Bool, true, ◌&&◌, ◌≡◌, refl, sym, ap, ◌∙◌, eqb_iff, arith, Bool-cases,
  Option-cases, Option, none, some, List, [], ◌∷◌, map, inl, inr, eqb, select, first,
}
use valaf.Common.Effect.{ok, err, no_rows}
use valaf.Core.Analyze.{EvidenceRef, AnalysisRequest}
use valaf.Store.Tables.{EvidenceRow, IncidentRow, AnalysisRow, Tables}
use valaf.Store.Sql.{up, exec, finish_query, read}
use valaf.Store.Sql.Rules.{Gives, Gives-bind, Gives-pure, Gives-query, Holds}
use valaf.Store.Incidents.{find_incident, row_query}
use valaf.Store.Retrieval.{
  number_refs, evidence_ref, valid_evidence, order_by, before, load_similar, load_analysis_request,
  resolution_of,
}
use valaf.Store.Notebook.{
  is_kept, find_kept, if_analysed, assemble, notebook_not_found, load_notebook,
}
use valaf.Store.Notebook.Views.{EvidenceView, Notebook, Json}
use valaf.Store.Notebook.Cards.{
  alert_views, shown_evidence, evidence_view, number_views, evidence_views, load_evidence,
  index_views, load_analysis, load_observations, load_hypotheses, load_resolution,
  load_similar_used, similar_cards, observation_rows, observation_view, hypothesis_rows,
  hypothesis_view, resolution_card, find_current,
}

-- a list that belongs to the current analysis
abbrev of_current : {A : Type 0} → Option AnalysisRow → (ℕ → List A) → List A
of_current none f = []
of_current (some a) f = f a.id

if_analysed-up :
    {A : Type 0} (o : Option AnalysisRow) (f : ℕ → Tables → List A) (t : Tables)
    → if_analysed o (λ id. exec (read (f id))) (up t) ≡ (ok (of_current o (λ id. f id t)), up t)
unfolding exec finish_query
if_analysed-up none f t = refl
if_analysed-up (some a) f t = refl

module _ {F : Type 0} (json : Json F) where
  -- the page of an incident, without the statements that load it
  abbrev pub page_of : Tables → IncidentRow → Notebook F
  page_of t i =
      let cards = evidence_views json i.id t in
      let refs = index_views cards [] in
      let current = find_current i.id t in
      assemble i (alert_views i.id t) cards current
        (of_current current (λ id. map (observation_view t refs) (observation_rows id t)))
        (of_current current (λ id. map (hypothesis_view t refs) (hypothesis_rows id t)))
        (resolution_card t (resolution_of i.id t)) (of_current current (λ id. similar_cards id t))

  -- On a connection that does not fail, a notebook is loaded for every incident that is not deleted,
  -- and is the page of that incident; otherwise the error says that there is no notebook. No table
  -- changes.
  pub load_notebook_lem :
      (id : ℕ) (t : Tables)
      → load_notebook json id (up t) ≡ (
        elim (find_kept id t) [ none ↦ err notebook_not_found | some i ↦ ok (page_of t i) ],
        up t,
      )
  unfolding load_notebook load_evidence load_analysis load_observations load_hypotheses
      load_resolution load_similar_used exec finish_query
  load_notebook_lem id t = elim (Option-cases (find_kept id t)) [
    | inl e ↦ rw e refl
    | inr (i, e) ↦
        rw e
          (elim (Option-cases (find_current i.id t)) [ inl f ↦ rw f refl | inr (a, f) ↦ rw f refl ])
  ]

-- how an item is labelled
abbrev pub view_label : {F : Type 0} → EvidenceView F → String × ℕ
view_label v = (v.ref, v.id)

abbrev pub ref_label : EvidenceRef → String × ℕ
ref_label r = (r.ref, r.id)

abbrev IsValidRow : EvidenceRow → Type 0
IsValidRow r = r.is_valid ≡ true

-- without flagged items, both queries select the same rows
select_valid :
    (id : ℕ) (rows : List EvidenceRow)
    → All (λ (r : EvidenceRow). eqb r.incident_id id ≡ true → r.is_valid ≡ true) rows
    → select (λ (e : EvidenceRow). eqb e.incident_id id && e.is_valid) rows
      ≡ select (λ (e : EvidenceRow). eqb e.incident_id id) rows
select_valid id [] a = refl
select_valid id (r ∷ rest) a = elim (Bool-cases (eqb r.incident_id id)) [
  | inl e ↦ rw e (rw (a.0 e) (rw (select_valid id rest a.1) refl))
  | inr e ↦ rw e (select_valid id rest a.1)
]

labels_agree :
    {F : Type 0} (json : Json F) (t : Tables) (n : ℕ) (rows : List EvidenceRow)
    → map view_label (number_views json t n rows) ≡ map ref_label (number_refs n rows)
unfolding number_views number_refs evidence_view evidence_ref
labels_agree json t n [] = refl
labels_agree json t n (r ∷ rest) = rw (labels_agree json t (suc n) rest) refl

module _ (t0 : Tables) (id : ℕ) where
  abbrev Listed : List EvidenceRow → Type 0
  Listed rows = rows ≡ valid_evidence id t0

  Gives-request :
      Gives
        (λ t. t ≡ t0)
        (load_analysis_request id)
        (λ req _. req.evidence ≡ number_refs 0 (valid_evidence id t0))
  unfolding load_analysis_request
  Gives-request =
      Gives-bind (exec (row_query (find_incident id))) _ (λ _ t. t ≡ t0)
        (Gives-query (row_query (find_incident id)) (λ t p. reads t (find_incident id t) p))
        (λ (i : IncidentRow).
          Gives-bind (exec (read (valid_evidence id))) _ (λ rows _. Listed rows)
            (Gives-query (read (valid_evidence id)) (λ t p. ap (valid_evidence id) p))
            (λ rows.
              Gives-bind (load_similar id) _ (λ _ _. Listed rows) (record { at = λ c a d p e. p })
                (λ similar.
                  Gives-pure
                    (record {
                      incident_title = i.title;
                      severity = i.severity;
                      entity_bag = i.entity_bag;
                      evidence = number_refs 0 rows;
                      similar = similar;
                    })
                    (λ t p. ap (number_refs 0) p))))
    where
      reads :
          (t : Tables) (o : Option IncidentRow)
          → t ≡ t0
          → Holds {A = IncidentRow}
              (λ _ t'. t' ≡ t0)
              (elim o [ none ↦ err no_rows | some i ↦ ok (i, t) ])
      reads t none p = tt
      reads t (some i) p = p

first-select :
    {A : Type 0} (p : A → Bool) (xs : List A) (x : A) → first (select p xs) ≡ some x → p x ≡ true
first-select p [] x e = cc
first-select p (y ∷ rest) x e = elim (Bool-cases (p y)) [
  | inl f ↦ let e' : some y ≡ some x = rw f at e in let e'' : y ≡ x = cc in rw (sym e'') f
  | inr f ↦ first-select p rest x (rw f at e)
]

find_kept-id : (id : ℕ) (t : Tables) (i : IncidentRow) → find_kept id t ≡ some i → i.id ≡ id
find_kept-id id t i e =
    let h : (eqb i.id id && is_kept i) ≡ true =
      first-select (λ (i : IncidentRow). eqb i.id id && is_kept i) t.incidents i e in
    (eqb_iff i.id id).0 (ground arith)

pub load_notebook-evidence :
    {F : Type 0} (json : Json F) (id : ℕ) (t : Tables) (nb : Notebook F)
    → (load_notebook json id (up t)).0 ≡ ok nb
    → nb.evidence ≡ evidence_views json id t
load_notebook-evidence json id t nb loaded = elim (Option-cases (find_kept id t)) [
  | inl e ↦ cc (rw e at page)
  | inr (i, e) ↦
      let page' : ok (page_of json t i) ≡ ok nb = rw e at page in
      let same : page_of json t i ≡ nb = cc in
      sym (ap (λ n. n.evidence) same) ∙ ap (λ k. evidence_views json k t) (find_kept-id id t i e)
]
  where
    page :
        elim (find_kept id t) [ none ↦ err notebook_not_found | some i ↦ ok (page_of json t i) ]
        ≡ ok nb
    page = sym (ap (λ r. r.0) (load_notebook_lem json id t)) ∙ loaded

-- While no evidence of an incident is flagged, the evidence cards of its page carry the handles under
-- which the AI provider was given the same items: E1, E2, ... in the same order.
pub load_notebook-load_analysis_request :
    {F : Type 0} (json : Json F) (id : ℕ) (t : Tables) (nb : Notebook F) (req : AnalysisRequest)
    → All (λ (r : EvidenceRow). eqb r.incident_id id ≡ true → r.is_valid ≡ true) t.evidence_items
    → (load_notebook json id (up t)).0 ≡ ok nb
    → (load_analysis_request id (up t)).0 ≡ ok req
    → map view_label nb.evidence ≡ map ref_label req.evidence
unfolding evidence_views
load_notebook-load_analysis_request json id t nb req valid loaded asked =
    ap (map view_label) (load_notebook-evidence json id t nb loaded)
    ∙ labels_agree json t 0 (shown_evidence id t)
    ∙ ap (λ rows. map ref_label (number_refs 0 (order_by before rows)))
        (sym (select_valid id t.evidence_items valid))
    ∙ ap (map ref_label) (
        sym (
          (Gives-request t id).at (up t) req (load_analysis_request id (up t)).1 refl
            (ap (λ r. (r, (load_analysis_request id (up t)).1)) asked)))
