-- ===== src/Examples/Notebook.antt =====
-- The page of an incident on concrete data.
use valaf.Common.{String, Bool, ◌≡◌, refl, ap, true, ℕ, none, some, [], ◌∷◌, map}
use valaf.Common.Effect.{ok}
use valaf.Core.Collect.{captured}
use valaf.Core.Analyze.{analyzed, AnalysisRequest}
use valaf.Store.Tables.{
  opened, IncidentRow, EvidenceRow, AnalysisRow, HypothesisRow, Tables, empty_tables,
}
use valaf.Store.Sql.{up, exec}
use valaf.Store.Retrieval.{order_by, number_refs, load_analysis_request, load_similar}
use valaf.Store.Notebook.{load_notebook}
use valaf.Store.Notebook.Views.{Json, Notebook}
use valaf.Store.Notebook.Cards.{index_views, evidence_views, observation_view, observation_rows}
use valaf.Store.Notebook.Linked.{Linked, load_notebook-Linked}
use valaf.Store.Notebook.Shown.{cards_with, rows_with, Numbered, load_notebook_shows}
use valaf.Store.Notebook.Handles.{
  page_of, load_notebook_lem, view_label, ref_label, load_notebook-load_analysis_request,
}

abbrev pub incident : IncidentRow
incident = record {
  id = 1;
  title = "Disk full";
  status = opened;
  severity = "high";
  grouping_key = "disk";
  entity_bag = [];
  triage_verdict = none;
  opened_at = 90;
  published_at = none;
  resolved_at = none;
  deleted_at = none;
}

abbrev item : ℕ → ℕ → EvidenceRow
item id at = record {
  id = id;
  incident_id = 1;
  collector = "prometheus";
  kind = "metric";
  request = "{}";
  result = some "{}";
  status = captured;
  error = none;
  is_valid = true;
  invalid_comment = none;
  flagged_by = none;
  flagged_at = none;
  captured_at = at;
}

abbrev analysis : AnalysisRow
analysis = record {
  id = 5;
  incident_id = 1;
  provider = some "openai";
  model = none;
  status = analyzed;
  summary = some "The disk is full.";
  timeline = [];
  gaps = [];
  triage_verdict = none;
  is_current = true;
  error = none;
  created_at = 120;
}

abbrev hypothesis_row : HypothesisRow
hypothesis_row = record {
  id = 7;
  analysis_id = 5;
  rank = 1;
  title = "A log grows";
  rationale = none;
  suggested_checks = [];
  verdict = "none";
  verdict_note = none;
  verdict_by = none;
  verdict_at = none;
}

-- item 4 was captured before item 3, so that it is E1
abbrev tables : Tables
tables = record empty_tables {
  next_id = 10;
  incidents = incident ∷ [];
  evidence_items = item 3 110 ∷ item 4 100 ∷ [];
  analyses = analysis ∷ [];
  observations = record { id = 6; analysis_id = 5; body = "usage rises"; ordinal = 0 } ∷ [];
  observation_citations = record { observation_id = 6; evidence_item_id = 4 } ∷ [];
  hypotheses = hypothesis_row ∷ [];
  hypothesis_evidence =
      record { hypothesis_id = 7; evidence_item_id = 3; relation = "supporting" } ∷ [];
}

abbrev json : Json ℕ
json = record {
  query_of = λ raw. "up";
  view_url_of = λ raw. "";
  series_of = λ raw. none;
  indent = λ raw. none;
}

abbrev page : Notebook ℕ
page = page_of json tables incident

loaded : load_notebook json 1 (up tables) ≡ (ok page, up tables)
loaded = load_notebook_lem json 1 tables

load_notebook_shows_example :
    ((p : ℕ → String → String → Bool → Bool)
      → cards_with p page.evidence ≡ rows_with p 1 tables.evidence_items)
    × Numbered 0 page.evidence
load_notebook_shows_example = load_notebook_shows json tables 1 page (ap (λ r. r.0) loaded)

cited : map (λ o. o.cite_refs) page.observations ≡ ("E1" ∷ []) ∷ []
unfolding observation_view observation_rows index_views evidence_views
cited = refl

load_notebook-Linked_example : Linked tables page
load_notebook-Linked_example =
    load_notebook-Linked json tables 1 (up tables) (up tables) page loaded refl

abbrev asked : AnalysisRequest
asked = record {
  incident_title = "Disk full";
  severity = "high";
  entity_bag = [];
  evidence = number_refs 0 (item 4 100 ∷ item 3 110 ∷ []);
  similar = [];
}

asks : (load_analysis_request 1 (up tables)).0 ≡ ok asked
unfolding load_analysis_request order_by exec load_similar
asks = refl

load_notebook-load_analysis_request_example :
    map view_label page.evidence ≡ map ref_label asked.evidence
load_notebook-load_analysis_request_example =
    load_notebook-load_analysis_request json 1 tables page asked (λ _. refl, (λ _. refl, tt))
      (ap (λ r. r.0) loaded) asks
