-- ===== src/Store/Notebook.antt =====
-- internal/store/notebook.go and internal/store/attachments.go: what the pages read. A stored bag of
-- entities, annotations, a timeline, gaps and checks are values of the tables already, so that the
-- decoding of their columns is not seen here.
pub mod Views
pub mod Cards
pub mod Linked
pub mod Handles
pub mod Shown
use valaf.Common.{
  ℕ, suc, String, Bool, true, false, ◌&&◌, Option, none, some, List, [], ◌∷◌, map, eqb, ltb, select,
  first, length, ◌==◌, if◌then◌else◌,
}
use valaf.Common.Text.{codes, has_prefix}
use valaf.Common.Effect.{
  Error, Result, ok, err, database, no_rows, message, Eff, pure, attempt, ◌>>=◌,
}
use valaf.Core.Alert.{Time}
use valaf.Core.Analyze.{AnalysisStatus, analyzed, failed, skipped}
use valaf.Store.Tables.{
  IncidentRow, AlertRow, EvidenceRow, AttachmentRow, AnalysisRow, ObservationRow, CitationRow,
  HypothesisRow, HypothesisEvidenceRow, SimilarRow, ResolutionRow, UserRow, Tables,
}
use valaf.Store.Sql.{Conn, Sql, Query, exec, read, or_empty}
use valaf.Store.Incidents.{alerts_of, find_incident, row_query}
use valaf.Store.Retrieval.{handle, status_text, before, order_by, take, resolution_of}
use valaf.Store.Notebook.Cards.{
  alert_views, load_evidence, index_views, load_analysis, load_observations, load_hypotheses,
  load_resolution, load_similar_used, analysis_view,
}
use valaf.Store.Notebook.Views.{
  IncidentSummary, IncidentDetail, AlertView, AnalysisView, ObservationView, HypothesisView,
  EvidenceView, ResolutionView, SimilarUsedView, Notebook, Json, parse_metric_summary, pretty_json,
}

abbrev pub is_kept : IncidentRow → Bool
is_kept i = elim i.deleted_at [ none ↦ true | some _ ↦ false ]

-- `matches_title` is the full-text search and the ILIKE of the server
module _ (matches_title : String → String → Bool) where
  abbrev pub is_listed : String → IncidentRow → Bool
  is_listed query i = is_kept i && (if query == "" then true else matches_title query i.title)

  abbrev pub summary_of : Tables → IncidentRow → IncidentSummary
  summary_of t i = record {
    id = i.id;
    title = i.title;
    status = i.status;
    severity = i.severity;
    triage_verdict = or_empty i.triage_verdict;
    alert_count = length (alerts_of i.id t);
    opened_at = i.opened_at;
  }

  unfoldable pub list_incidents : String → Sql (List IncidentSummary)
  unfolding order_by
  list_incidents query = exec (
      read (λ t. map (summary_of t) (
        take 200 (
          order_by (λ (a b : IncidentRow). ltb b.opened_at a.opened_at)
            (select (is_listed query) t.incidents)))))

abbrev pub notebook_not_found : Error
notebook_not_found = message "notebook not found"

abbrev pub find_kept : ℕ → Tables → Option IncidentRow
find_kept id t = first (select (λ (i : IncidentRow). eqb i.id id && is_kept i) t.incidents)

abbrev pub detail_of : IncidentRow → IncidentDetail
detail_of i = record {
  id = i.id;
  title = i.title;
  status = i.status;
  severity = i.severity;
  triage_verdict = or_empty i.triage_verdict;
  entity_bag = i.entity_bag;
  opened_at = i.opened_at;
  published_at = i.published_at;
  resolved_at = i.resolved_at;
}

-- any error of the first query is reported as a notebook that does not exist
abbrev pub or_not_found : Result IncidentRow → Sql IncidentRow
or_not_found (ok i) c = (ok i, c)
or_not_found (err e) c = (err notebook_not_found, c)

-- what is loaded of an analysis, if there is one
abbrev pub if_analysed : {A : Type 0} → Option AnalysisRow → (ℕ → Sql (List A)) → Sql (List A)
if_analysed none load = pure []
if_analysed (some a) load = load a.id

module _ {F : Type 0} where
  abbrev pub assemble :
      IncidentRow
      → List AlertView
      → List (EvidenceView F)
      → Option AnalysisRow
      → List ObservationView
      → List HypothesisView
      → Option ResolutionView
      → List SimilarUsedView
      → Notebook F
  assemble i alerts evidence analysis observations hypotheses resolution similar = record {
    incident = detail_of i;
    alerts = alerts;
    analysis = elim analysis [ none ↦ none | some a ↦ some (analysis_view a) ];
    observations = observations;
    hypotheses = hypotheses;
    evidence = evidence;
    resolution = resolution;
    similar_used = similar;
  }

module _ {F : Type 0} (json : Json F) where
  unfoldable pub load_notebook : ℕ → Sql (Notebook F)
  unfolding alert_views load_evidence index_views load_analysis load_observations load_hypotheses
      load_resolution load_similar_used
  load_notebook id = do
    found ← attempt (exec (row_query (find_kept id)))
    i ← or_not_found found
    alerts ← exec (read (alert_views i.id))
    evidence ← load_evidence json i.id
    analysis ← load_analysis i.id
    observations ← if_analysed analysis (λ a. load_observations a (index_views evidence []))
    hypotheses ← if_analysed analysis (λ a. load_hypotheses a (index_views evidence []))
    resolution ← load_resolution i.id
    similar ← if_analysed analysis load_similar_used
    pure (assemble i alerts evidence analysis observations hypotheses resolution similar)

-- internal/store/attachments.go
pub record StoredAttachment : Type 0 where
  pub storage_backend : String
  pub storage_key : String
  pub mime_type : String

abbrev pub attachment_not_found : Error
attachment_not_found = message "attachment not found"

abbrev pointer_to : Result AttachmentRow → Sql StoredAttachment
pointer_to (ok a) c = (
  ok (record {
    storage_backend = a.storage_backend;
    storage_key = a.storage_key;
    mime_type = a.mime_type;
  }),
  c,
)
pointer_to (err no_rows) c = (err attachment_not_found, c)
pointer_to (err e) c = (err e, c)

unfoldable pub get_attachment : ℕ → Sql StoredAttachment
get_attachment id = do
  r ←
      attempt
        (exec (row_query (λ t. first (select (λ (a : AttachmentRow). eqb a.id id) t.attachments))))
  pointer_to r
