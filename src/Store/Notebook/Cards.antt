-- ===== src/Store/Notebook/Cards.antt =====
-- The `load...` methods of ReadRepo in internal/store/notebook.go, one for each card of the page.
use valaf.Common.{
  ℕ, suc, String, ◌&&◌, Option, none, some, List, [], ◌∷◌, map, eqb, ltb, select, first, ◌==◌,
  if◌then◌else◌,
}
use valaf.Common.Text.{codes, has_prefix}
use valaf.Common.Effect.{Result, ok, err, pure, attempt, ◌>>=◌}
use valaf.Core.Analyze.{AnalysisStatus, analyzed, failed, skipped}
use valaf.Store.Tables.{
  IncidentRow, AlertRow, EvidenceRow, AttachmentRow, AnalysisRow, ObservationRow, CitationRow,
  HypothesisRow, HypothesisEvidenceRow, SimilarRow, ResolutionRow, UserRow, Tables,
}
use valaf.Store.Sql.{Sql, exec, read, or_empty}
use valaf.Store.Incidents.{alerts_of, find_incident, row_query}
use valaf.Store.Retrieval.{handle, status_text, before, order_by, resolution_of}
use valaf.Store.Notebook.Views.{
  AlertView, AnalysisView, ObservationView, HypothesisView, EvidenceView, ResolutionView,
  SimilarUsedView, Json, parse_metric_summary, pretty_json,
}

abbrev alert_view : AlertRow → AlertView
alert_view a = record {
  source = a.source;
  fingerprint = a.fingerprint;
  severity = a.severity;
  annotations = a.annotations;
  starts_at = a.starts_at;
  received_at = a.received_at;
}

unfoldable pub alert_views : ℕ → Tables → List AlertView
unfolding order_by
alert_views id t =
    map alert_view (order_by (λ (a b : AlertRow). ltb a.received_at b.received_at) (alerts_of id t))

-- `refByID`: the map from the ids of the evidence to the handles, the last entry first
abbrev pub Refs : Type 0
Refs = List (ℕ × String)

unfoldable pub ref_of : Refs → ℕ → Option String
ref_of [] id = none
ref_of ((i, r) ∷ rest) id = let other = ref_of rest id in if eqb i id then some r else other

unfoldable pub add_ref : Option String → List String → List String
add_ref none rest = rest
add_ref (some r) rest = r ∷ rest

unfoldable pub map_refs : List ℕ → Refs → List String
unfolding add_ref ref_of
map_refs [] refs = []
map_refs (id ∷ rest) refs = add_ref (ref_of refs id) (map_refs rest refs)

-- LIKE 'image/%'
unfoldable pub image_of : ℕ → Tables → Option ℕ
unfolding has_prefix
image_of id t =
    elim (first (
      select
        (λ (a : AttachmentRow).
          eqb a.evidence_item_id id && has_prefix (codes a.mime_type) (codes "image/"))
        t.attachments)) [ none ↦ none | some a ↦ some a.id ]

-- every evidence item of the incident, flagged ones included
abbrev pub shown_evidence : ℕ → Tables → List EvidenceRow
shown_evidence id t =
    order_by before (select (λ (e : EvidenceRow). eqb e.incident_id id) t.evidence_items)

module _ {F : Type 0} (json : Json F) where
  unfoldable pub evidence_view : Tables → ℕ → EvidenceRow → EvidenceView F
  unfolding handle image_of parse_metric_summary pretty_json
  evidence_view t i e = record {
    ref = handle i;
    id = e.id;
    collector = e.collector;
    kind = e.kind;
    status = status_text e.status;
    query = json.query_of e.request;
    metrics = parse_metric_summary json (or_empty e.result);
    image_id = image_of e.id t;
    view_url = json.view_url_of (or_empty e.result);
    request = pretty_json json e.request;
    result = pretty_json json (or_empty e.result);
    error = or_empty e.error;
    is_valid = e.is_valid;
    invalid_comment = or_empty e.invalid_comment;
    captured_at = e.captured_at;
  }

  -- the loop over the rows, over its counter
  unfoldable pub number_views : Tables → ℕ → List EvidenceRow → List (EvidenceView F)
  unfolding evidence_view
  number_views t i [] = []
  number_views t i (e ∷ rest) = evidence_view t (suc i) e ∷ number_views t (suc i) rest

  unfoldable pub evidence_views : ℕ → Tables → List (EvidenceView F)
  unfolding number_views
  evidence_views id t = number_views t 0 (shown_evidence id t)

  unfoldable pub load_evidence : ℕ → Sql (List (EvidenceView F))
  unfolding evidence_views
  load_evidence id = exec (read (evidence_views id))

-- the same loop over `refByID`
unfoldable pub index_views : {F : Type 0} → List (EvidenceView F) → Refs → Refs
index_views [] refs = refs
index_views (v ∷ rest) refs = index_views rest ((v.id, v.ref) ∷ refs)

abbrev pub analysis_status_text : AnalysisStatus → String
analysis_status_text analyzed = "ok"
analysis_status_text failed = "failed"
analysis_status_text skipped = "skipped"

abbrev pub analysis_view : AnalysisRow → AnalysisView
analysis_view a = record {
  provider = or_empty a.provider;
  model = or_empty a.model;
  status = analysis_status_text a.status;
  summary = or_empty a.summary;
  timeline = a.timeline;
  gaps = a.gaps;
  triage_verdict = or_empty a.triage_verdict;
  error = a.error;
  created_at = a.created_at;
}

abbrev pub find_current : ℕ → Tables → Option AnalysisRow
find_current id t =
    first (select (λ (a : AnalysisRow). eqb a.incident_id id && a.is_current) t.analyses)

-- any error means that there is no analysis yet
unfoldable pub ignore_error : Result AnalysisRow → Option AnalysisRow
ignore_error (ok a) = some a
ignore_error (err e) = none

unfoldable pub load_analysis : ℕ → Sql (Option AnalysisRow)
unfolding ignore_error
load_analysis id = do r ← attempt (exec (row_query (find_current id))); pure (ignore_error r)

abbrev pub cited_ids : ℕ → Tables → List ℕ
cited_ids observation_id t =
    map (λ l. l.evidence_item_id)
      (select (λ (l : CitationRow). eqb l.observation_id observation_id) t.observation_citations)

unfoldable pub observation_view : Tables → Refs → ObservationRow → ObservationView
unfolding map_refs
observation_view t refs o = record { body = o.body; cite_refs = map_refs (cited_ids o.id t) refs }

unfoldable pub observation_rows : ℕ → Tables → List ObservationRow
unfolding order_by
observation_rows analysis_id t =
    order_by (λ (a b : ObservationRow). ltb a.ordinal b.ordinal)
      (select (λ (o : ObservationRow). eqb o.analysis_id analysis_id) t.observations)

unfoldable pub load_observations : ℕ → Refs → Sql (List ObservationView)
load_observations analysis_id refs =
    exec (read (λ t. map (observation_view t refs) (observation_rows analysis_id t)))

abbrev pub related_ids : String → ℕ → Tables → List ℕ
related_ids relation hypothesis_id t =
    map (λ l. l.evidence_item_id)
      (select
        (λ (l : HypothesisEvidenceRow).
          eqb l.hypothesis_id hypothesis_id && (l.relation == relation))
        t.hypothesis_evidence)

unfoldable pub hypothesis_view : Tables → Refs → HypothesisRow → HypothesisView
unfolding map_refs
hypothesis_view t refs h = record {
  id = h.id;
  rank = h.rank;
  title = h.title;
  rationale = or_empty h.rationale;
  verdict = h.verdict;
  verdict_note = or_empty h.verdict_note;
  checks = h.suggested_checks;
  supporting_refs = map_refs (related_ids "supporting" h.id t) refs;
  contradicting_refs = map_refs (related_ids "contradicting" h.id t) refs;
}

unfoldable pub hypothesis_rows : ℕ → Tables → List HypothesisRow
unfolding order_by
hypothesis_rows analysis_id t =
    order_by (λ (a b : HypothesisRow). ltb a.rank b.rank)
      (select (λ (h : HypothesisRow). eqb h.analysis_id analysis_id) t.hypotheses)

unfoldable pub load_hypotheses : ℕ → Refs → Sql (List HypothesisView)
load_hypotheses analysis_id refs =
    exec (read (λ t. map (hypothesis_view t refs) (hypothesis_rows analysis_id t)))

-- LEFT JOIN users
abbrev username_of : ℕ → Tables → String
username_of id t = elim (first (select (λ (u : UserRow). eqb u.id id) t.users)) [
  | none ↦ ""
  | some u ↦ u.username
]

abbrev pub resolution_view : Tables → ResolutionRow → ResolutionView
resolution_view t r = record {
  root_cause = r.root_cause;
  actions_taken = or_empty r.actions_taken;
  ultimate_solution = or_empty r.ultimate_solution;
  notes = or_empty r.notes;
  resolved_by = username_of r.resolved_by t;
  resolved_at = r.resolved_at;
}

abbrev pub resolution_card : Tables → Option ResolutionRow → Option ResolutionView
resolution_card t none = none
resolution_card t (some r) = some (resolution_view t r)

-- no row is no error here
unfoldable pub load_resolution : ℕ → Sql (Option ResolutionView)
load_resolution id = exec (read (λ t. resolution_card t (resolution_of id t)))

similar_view : Option IncidentRow → SimilarRow → List SimilarUsedView → List SimilarUsedView
similar_view none s rest = rest
similar_view (some i) s rest =
    record { incident_id = s.source_incident_id; title = i.title; overlap = s.overlap } ∷ rest

-- JOIN incidents
join_similar : Tables → List SimilarRow → List SimilarUsedView
unfolding similar_view
join_similar t [] = []
join_similar t (s ∷ rest) =
    similar_view (find_incident s.source_incident_id t) s (join_similar t rest)

unfoldable pub similar_cards : ℕ → Tables → List SimilarUsedView
unfolding join_similar order_by
similar_cards analysis_id t = join_similar t (
    order_by (λ (a b : SimilarRow). ltb b.score a.score)
      (select (λ (s : SimilarRow). eqb s.analysis_id analysis_id) t.similar_incidents))

unfoldable pub load_similar_used : ℕ → Sql (List SimilarUsedView)
unfolding similar_cards
load_similar_used analysis_id = exec (read (similar_cards analysis_id))
