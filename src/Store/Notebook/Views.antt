-- ===== src/Store/Notebook/Views.antt =====
-- The view shapes of internal/store/notebook.go, and what the page shows of a request or a result
-- that a collector stored. `F` stands for Go's float64, whose values are only passed on here.
use valaf.Common.{ℕ, String, Bool, Option, none, some, List, [], ◌∷◌, map, ◌==◌, if◌then◌else◌}
use valaf.Common.Maps.{Map, get}
use Prim.Native.String.{◌++◌}
use valaf.Common.Effect.{Error}
use valaf.Core.Alert.{RawMessage, Time}
use valaf.Core.Analyze.{TimelineEntry}
use valaf.Store.Tables.{IncidentStatus}

pub record IncidentSummary : Type 0 where
  pub id : ℕ
  pub title : String
  pub status : IncidentStatus
  pub severity : String
  pub triage_verdict : String
  pub alert_count : ℕ
  pub opened_at : Time

pub record IncidentDetail : Type 0 where
  pub id : ℕ
  pub title : String
  pub status : IncidentStatus
  pub severity : String
  pub triage_verdict : String
  pub entity_bag : Map String
  pub opened_at : Time
  pub published_at : Option Time
  pub resolved_at : Option Time

pub record AlertView : Type 0 where
  pub source : String
  pub fingerprint : String
  pub severity : String
  pub annotations : Map String
  pub starts_at : Option Time
  pub received_at : Time

pub record AnalysisView : Type 0 where
  pub provider : String
  pub model : String
  pub status : String
  pub summary : String
  pub timeline : List TimelineEntry
  pub gaps : List String
  pub triage_verdict : String
  pub error : Option Error  -- the text of the error
  pub created_at : Time

pub record ObservationView : Type 0 where
  pub body : String
  pub cite_refs : List String

pub record HypothesisView : Type 0 where
  pub id : ℕ
  pub rank : ℕ
  pub title : String
  pub rationale : String
  pub verdict : String
  pub verdict_note : String
  pub checks : List String
  pub supporting_refs : List String
  pub contradicting_refs : List String

pub record MetricSeries (F : Type 0) : Type 0 where
  pub label : String
  pub min : F
  pub max : F
  pub avg : F
  pub first : F
  pub last : F
  pub trend : List F

pub record EvidenceView (F : Type 0) : Type 0 where
  pub ref : String
  pub id : ℕ
  pub collector : String
  pub kind : String
  pub status : String
  pub query : String
  pub metrics : List (MetricSeries F)
  pub image_id : Option ℕ
  pub view_url : String
  pub request : String
  pub result : String
  pub error : String
  pub is_valid : Bool
  pub invalid_comment : String
  pub captured_at : Time

pub record ResolutionView : Type 0 where
  pub root_cause : String
  pub actions_taken : String
  pub ultimate_solution : String
  pub notes : String
  pub resolved_by : String
  pub resolved_at : Time

pub record SimilarUsedView : Type 0 where
  pub incident_id : ℕ
  pub title : String
  pub overlap : List String

pub record Notebook (F : Type 0) : Type 0 where
  pub incident : IncidentDetail
  pub alerts : List AlertView
  pub analysis : Option AnalysisView
  pub observations : List ObservationView
  pub hypotheses : List HypothesisView
  pub evidence : List (EvidenceView F)
  pub resolution : Option ResolutionView
  pub similar_used : List SimilarUsedView

-- an element of `series` in a metric summary
pub record SeriesJson (F : Type 0) : Type 0 where
  pub labels : Map String
  pub min : F
  pub max : F
  pub avg : F
  pub first : F
  pub last : F
  pub trend : List F

-- What the page asks of encoding/json: a field that is missing, or a text that is not JSON, leaves
-- the zero value, and `none` is an error.
pub record Json (F : Type 0) : Type 0 where
  pub query_of : RawMessage → String
  pub view_url_of : RawMessage → String
  pub series_of : RawMessage → Option (List (SeriesJson F))
  pub indent : RawMessage → Option String

-- the labels that `compactLabels` tries, in its order
abbrev pub identifying : List String
identifying = "mountpoint" ∷ "device" ∷ "host" ∷ "nodename" ∷ "instance" ∷ []

unfoldable pub label_from : List String → Map String → String
unfolding get
label_from [] m = ""
label_from (k ∷ rest) m =
    let others = label_from rest m in
    if get m k == "" then others else k ++ "=\"" ++ get m k ++ "\""

unfoldable pub compact_labels : Map String → String
unfolding label_from
compact_labels = label_from identifying

module _ {F : Type 0} (json : Json F) where
  abbrev pub metric_series : SeriesJson F → MetricSeries F
  unfolding compact_labels
  metric_series s = record {
    label = compact_labels s.labels;
    min = s.min;
    max = s.max;
    avg = s.avg;
    first = s.first;
    last = s.last;
    trend = s.trend;
  }

  -- nil is the empty list
  unfoldable pub parse_metric_summary : RawMessage → List (MetricSeries F)
  parse_metric_summary raw =
      if raw == ""
      then []
      else elim (json.series_of raw) [ none ↦ [] | some series ↦ map metric_series series ]

  unfoldable pub pretty_json : RawMessage → String
  pretty_json raw =
      if raw == "" then "" else elim (json.indent raw) [ none ↦ raw | some text ↦ text ]
