-- ===== src/Export.antt =====
-- internal/export/export.go and json.go: the choice of an exporter, the name of a download, and the
-- document that encoding/json prints.
pub mod Words
pub mod Markdown
pub mod Docx
pub mod Filename
pub mod Escape
use valaf.Common.{
  ℕ, suc, String, Bool, true, false, not, ◌&&◌, ◌||◌, Option, none, some, List, [], ◌∷◌, ◌++◌, map,
  leb, ltb, eqb, length, if◌then◌else◌,
}
use mathlib.Core.List.{reverse}
use valaf.Common.Text.{Text, codes, same, one_of, to_lower, trim_space, drop_char}
use valaf.Common.Maps.{Map}
use valaf.Common.Effect.{Error}
use valaf.Core.Alert.{Time}
use valaf.Core.Analyze.{TimelineEntry}
use valaf.Store.Tables.{IncidentStatus}
use valaf.Store.Retrieval.{take}
use valaf.Store.Notebook.Views.{
  IncidentDetail, AlertView, AnalysisView, ObservationView, HypothesisView, EvidenceView,
  ResolutionView, Notebook,
}

pub data Format : Type 0 where
  json : Format
  markdown : Format
  docx : Format

-- `For`
unfoldable pub exporter_for : Text → Option Format
unfolding one_of to_lower
exporter_for format =
    let f = to_lower format in
    if one_of f ("json" ∷ [])
    then some json
    else if one_of f ("md" ∷ "markdown" ∷ [])
    then some markdown
    else if one_of f ("docx" ∷ [])
    then some docx
    else none

-- `ContentType` and `Ext` of the three exporters
abbrev pub content_type : Format → String
content_type json = "application/json; charset=utf-8"
content_type markdown = "text/markdown; charset=utf-8"
content_type docx = "application/vnd.openxmlformats-officedocument.wordprocessingml.document"

abbrev pub ext : Format → String
ext json = "json"
ext markdown = "md"
ext docx = "docx"

-- the characters that `slugRe` keeps
abbrev pub is_slug : ℕ → Bool
is_slug c = (leb b'a' c && leb c b'z') || (leb b'0' c && leb c b'9')

-- `slugRe.ReplaceAllString(_, "-")`; the flag says that a run of other characters has begun
unfoldable pub replace_runs : Bool → Text → Text
replace_runs inside [] = []
replace_runs inside (c ∷ t) =
    let word = replace_runs false t in
    let run = replace_runs true t in
    if is_slug c then c ∷ word else if inside then run else b'-' ∷ run

-- strings.Trim with a hyphen
unfoldable pub trim_hyphens : Text → Text
trim_hyphens t = reverse (drop_char b'-' (reverse (drop_char b'-' t)))

abbrev pub cut : ℕ → Text → Text
cut n t = if ltb n (length t) then take n t else t

abbrev pub or_incident : Text → Text
or_incident [] = codes "incident"
or_incident (c ∷ t) = c ∷ t

unfoldable pub slug_of : Text → Text
unfolding replace_runs trim_hyphens to_lower
slug_of title = or_incident (cut 60 (trim_hyphens (replace_runs false (to_lower title))))

-- `Filename`, of the title and the id of the incident
unfoldable pub filename : Text → Text → Text → Text
unfolding slug_of
filename title id e = codes "valaf-" ++ (slug_of title ++ (b'-' ∷ (cut 8 id ++ (b'.' ∷ e))))

pub record AnalysisDoc : Type 0 where
  pub provider : String
  pub model : String
  pub status : String
  pub summary : String
  pub timeline : List TimelineEntry
  pub gaps : List String
  pub error : Option Error

pub record HypothesisDoc : Type 0 where
  pub rank : ℕ
  pub title : String
  pub rationale : String
  pub supporting : List String
  pub contradicting : List String
  pub checks : List String
  pub verdict : String
  pub verdict_note : String

pub record EvidenceDoc : Type 0 where
  pub ref : String
  pub collector : String
  pub kind : String
  pub status : String
  pub request : Option Text
  pub result : Option Text
  pub error : String
  pub valid : Bool
  pub invalid_comment : String

pub record AlertDoc : Type 0 where
  pub source : String
  pub severity : String
  pub annotations : Map String
  pub received_at : Time

-- incidentDoc, observationDoc and resolutionDoc have the fields of their views
pub record ExportDoc : Type 0 where
  pub incident : IncidentDetail
  pub analysis : Option AnalysisDoc
  pub observations : List ObservationView
  pub hypotheses : List HypothesisDoc
  pub evidence : List EvidenceDoc
  pub resolution : Option ResolutionView
  pub alerts : List AlertDoc

abbrev pub analysis_doc : Option AnalysisView → Option AnalysisDoc
analysis_doc none = none
analysis_doc (some a) = some (record {
  provider = a.provider;
  model = a.model;
  status = a.status;
  summary = a.summary;
  timeline = a.timeline;
  gaps = a.gaps;
  error = a.error;
})

abbrev pub hypothesis_doc : HypothesisView → HypothesisDoc
hypothesis_doc h = record {
  rank = h.rank;
  title = h.title;
  rationale = h.rationale;
  supporting = h.supporting_refs;
  contradicting = h.contradicting_refs;
  checks = h.checks;
  verdict = h.verdict;
  verdict_note = h.verdict_note;
}

abbrev pub alert_doc : AlertView → AlertDoc
alert_doc a = record {
  source = a.source;
  severity = a.severity;
  annotations = a.annotations;
  received_at = a.received_at;
}

-- json.Valid is a parameter
module _ (is_valid_json : Text → Bool) where
  keep_valid : Text → Option Text
  keep_valid [] = none
  keep_valid (c ∷ t) = if is_valid_json (c ∷ t) then some (c ∷ t) else none

  unfoldable pub raw_json : Text → Option Text
  unfolding keep_valid trim_space
  raw_json s = keep_valid (trim_space s)

  abbrev pub evidence_doc : {F : Type 0} → EvidenceView F → EvidenceDoc
  unfolding raw_json
  evidence_doc e = record {
    ref = e.ref;
    collector = e.collector;
    kind = e.kind;
    status = e.status;
    request = raw_json (codes e.request);
    result = raw_json (codes e.result);
    error = e.error;
    valid = e.is_valid;
    invalid_comment = e.invalid_comment;
  }

  -- `buildDoc`
  unfoldable pub build_doc : {F : Type 0} → Notebook F → ExportDoc
  build_doc nb = record {
    incident = nb.incident;
    analysis = analysis_doc nb.analysis;
    observations = nb.observations;
    hypotheses = map hypothesis_doc nb.hypotheses;
    evidence = map evidence_doc nb.evidence;
    resolution = nb.resolution;
    alerts = map alert_doc nb.alerts;
  }
