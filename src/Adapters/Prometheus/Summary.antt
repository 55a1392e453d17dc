-- ===== src/Adapters/Prometheus/Summary.antt =====
-- The summary of a range query in internal/adapters/prometheus/prometheus.go. `F` stands for float64
-- without NaN, with the operations that the code uses.
use Prim.Native.Nat.{◌/◌}
use valaf.Common.{
  ℕ, zero, suc, ◌-◌, ◌*◌, String, Bool, ◌||◌, Option, none, some, List, [], ◌∷◌, map, length, leb,
  ◌==◌, if◌then◌else◌,
}
use valaf.Common.Maps.{Map}
use valaf.Core.Alert.{RawMessage}

pub record Floats (F : Type 0) : Type 0 where
  pub less : F → F → Bool
  pub add : F → F → F
  pub zero_float : F
  pub over : F → ℕ → F  -- division by a length
  pub round2 : F → F

-- `pair[1]` of a point, as strconv.ParseFloat reads it; none is an error or NaN
pub record RawSeries : Type 0 where
  pub metric : Map String
  pub values : List (List RawMessage)

pub record SeriesSummary (F : Type 0) : Type 0 where
  pub labels : Map String
  pub points : ℕ
  pub min : F
  pub max : F
  pub avg : F
  pub first : F
  pub last : F
  pub trend : List F

pub record MetricSummary (F : Type 0) : Type 0 where
  pub metric : String
  pub note : String
  pub series : List (SeriesSummary F)

abbrev pub max_series : ℕ
max_series = 25

abbrev pub trend_points : ℕ
trend_points = 16

abbrev pub is_noisy : String → Bool
is_noisy k =
    (k == "__name__") || ((k == "service_instance_id") || (k == "deployment_environment_name"))

-- nil is the empty map
unfoldable pub trim_labels : Map String → Map String
trim_labels [] = []
trim_labels ((k, v) ∷ rest) =
    let others = trim_labels rest in if is_noisy k then others else (k, v) ∷ others

-- `vals[i]`, which panics out of range
unfoldable pub get_elem? : {A : Type 0} → List A → ℕ → Option A
get_elem? [] i = none
get_elem? (x ∷ xs) zero = some x
get_elem? (x ∷ xs) (suc i) = get_elem? xs i

module _ {F : Type 0} (parse_float : RawMessage → Option F) where
  keep_float : Option F → List F → List F
  keep_float none rest = rest
  keep_float (some f) rest = f ∷ rest

  parse_pair : List RawMessage → List F → List F
  unfolding keep_float
  parse_pair (t ∷ v ∷ []) rest = keep_float (parse_float v) rest
  parse_pair _ rest = rest

  unfoldable pub parse_floats : List (List RawMessage) → List F
  unfolding parse_pair
  parse_floats [] = []
  parse_floats (pair ∷ rest) = parse_pair pair (parse_floats rest)

module _ {F : Type 0} (ops : Floats F) where
  abbrev push : Option F → Option (List F) → Option (List F)
  push none rest = none
  push (some f) none = none
  push (some f) (some fs) = some (ops.round2 f ∷ fs)

  -- the loop over `i`, of which `todo` values are left; none is a panic
  unfoldable pub sample_from : List F → ℕ → ℕ → ℕ → Option (List F)
  unfolding get_elem?
  sample_from vals n i zero = some []
  sample_from vals n i (suc todo) =
      push (get_elem? vals (i * (length vals - 1) / (n - 1))) (sample_from vals n (suc i) todo)

  unfoldable pub downsample : List F → ℕ → Option (List F)
  unfolding sample_from
  downsample vals n =
      if leb (length vals) n then some (map ops.round2 vals) else sample_from vals n 0 n

  unfoldable pub smallest : F → List F → F
  smallest m [] = m
  smallest m (v ∷ rest) = smallest (if ops.less v m then v else m) rest

  unfoldable pub largest : F → List F → F
  largest m [] = m
  largest m (v ∷ rest) = largest (if ops.less m v then v else m) rest

  unfoldable pub total : F → List F → F
  total s [] = s
  total s (v ∷ rest) = total (ops.add s v) rest

  abbrev last_of : F → List F → F
  last_of v [] = v
  last_of v (w ∷ rest) = last_of w rest

  unfoldable pub summary_for : Map String → F → List F → List F → SeriesSummary F
  unfolding trim_labels smallest largest total
  summary_for labels v rest trend = record {
    labels = trim_labels labels;
    points = length (v ∷ rest);
    min = ops.round2 (smallest v (v ∷ rest));
    max = ops.round2 (largest v (v ∷ rest));
    avg = ops.round2 (ops.over (total ops.zero_float (v ∷ rest)) (length (v ∷ rest)));
    first = ops.round2 v;
    last = ops.round2 (last_of v rest);
    trend = trend;
  }

  unfoldable pub summary_with : Map String → F → List F → Option (List F) → Option (SeriesSummary F)
  unfolding summary_for
  summary_with labels v rest none = none
  summary_with labels v rest (some trend) = some (summary_for labels v rest trend)

  -- one series; none is a panic
  unfoldable pub summary_of : Map String → F → List F → Option (SeriesSummary F)
  unfolding summary_with downsample
  summary_of labels v rest = summary_with labels v rest (downsample (v ∷ rest) trend_points)

  abbrev pub prepend : {A : Type 0} → Option A → Option (List A) → Option (List A)
  prepend none rest = none
  prepend (some a) none = none
  prepend (some a) (some rest) = some (a ∷ rest)

  -- the body of the loop: a series without points is skipped
  unfoldable pub add_series :
      Map String → List F → Option (List (SeriesSummary F)) → Option (List (SeriesSummary F))
  unfolding summary_of
  add_series labels [] rest = rest
  add_series labels (v ∷ vals) rest = prepend (summary_of labels v vals) rest

  module _ (parse_float : RawMessage → Option F) where
    -- the loop over the series, of which `room` may still come
    unfoldable pub summaries : ℕ → List RawSeries → Option (List (SeriesSummary F))
    unfolding add_series parse_floats
    summaries zero series = some []
    summaries (suc room) [] = some []
    summaries (suc room) (s ∷ rest) =
        add_series s.metric (parse_floats parse_float s.values) (summaries room rest)

abbrev pub metric_summary :
    {F : Type 0} → String → Option (List (SeriesSummary F)) → Option (MetricSummary F)
metric_summary name none = none
metric_summary name (some out) = some (record {
  metric = name;
  note = "summary of a range query; re-run request.query for the raw series";
  series = out;
})

-- `summarize`; none is a panic
unfoldable pub summarize :
    {F : Type 0}
    → Floats F
    → (RawMessage → Option F)
    → String
    → List RawSeries
    → Option (MetricSummary F)
unfolding summaries
summarize ops parse_float name series =
    metric_summary name (summaries ops parse_float max_series series)
