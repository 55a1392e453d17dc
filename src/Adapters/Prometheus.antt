-- ===== src/Adapters/Prometheus.antt =====
-- internal/adapters/prometheus/prometheus.go: a collector of metrics. HTTP and encoding/json are
-- parameters.
pub mod Queries
pub mod Escape
pub mod Summary
pub mod Samples
pub mod Recorded
use Prim.Native.String.{◌++◌}
use valaf.Common.{
  ℕ, String, Bool, not, Option, none, some, List, [], ◌∷◌, ◌⊎◌, inl, inr, eqb, ◌==◌, if◌then◌else◌,
}
use valaf.Common.Text.{Text}
use valaf.Core.Alert.{RawMessage, Time}
use valaf.Core.Collect.{captured, gap, failed, TimeWindow, CollectTarget, EvidenceItem, Collector}
use valaf.Store.Retrieval.{itoa}
use valaf.Adapters.Http.{HttpAnswer, unanswered, answered}
use valaf.Adapters.Prometheus.Queries.{Query, build_queries}
use valaf.Adapters.Prometheus.Summary.{Floats, RawSeries, MetricSummary, summarize}

-- what is asked of /api/v1/query_range, and what the request record keeps; times are still instants
pub record RangeRequest : Type 0 where
  pub name : String
  pub query : Text
  pub start : Time
  pub end : Time
  pub step : Time

pub record PromResp : Type 0 where
  pub status : String
  pub data_json : RawMessage
  pub error : String

-- HTTP, encoding/json and float64; `first_bytes` is `b[:n]` of a text with more than `n` bytes; a decoder gives an error's text or a value, and the marshalling of
-- a summary fails for an infinite number
pub record Api (S F : Type 0) : Type 0 where
  pub get_range : Time → RangeRequest → S → HttpAnswer × S
  pub first_bytes : String → ℕ → Option String
  pub request_json : RangeRequest → RawMessage
  pub decode_response : String → String ⊎ PromResp
  pub decode_data : RawMessage → String ⊎ List RawSeries
  pub floats : Floats F
  pub parse_float : RawMessage → Option F
  pub summary_json : MetricSummary F → Option RawMessage

unfoldable pub range_request : Query → TimeWindow → RangeRequest
range_request q w = record {
  name = q.name;
  query = q.expr;
  start = w.start;
  end = w.end;
  step = if eqb w.step 0 then 30 else w.step;
}

-- the item before the request
abbrev pub new_item : RawMessage → EvidenceItem
new_item request = record {
  collector = "prometheus";
  kind = "metric";
  request = request;
  result = "";
  status = captured;
  error = "";
  attachment = none;
}

abbrev pub fail : EvidenceItem → String → EvidenceItem
fail item msg = record item { status = failed; error = msg }

-- `b, _ := json.Marshal(out)`: an error leaves nothing
abbrev pub bytes_of : Option RawMessage → RawMessage
bytes_of none = ""
bytes_of (some b) = b

unfoldable pub http_error : ℕ → String → String
unfolding itoa
http_error code text = "prometheus http " ++ (itoa code ++ (": " ++ text))

module _ {S F : Type 0} (api : Api S F) where
  -- the cut can split a character
  abbrev pub truncate : String → ℕ → String
  truncate b n = elim (api.first_bytes b n) [ none ↦ b | some s ↦ s ++ "…" ]

  unfoldable pub summarized : EvidenceItem → Option (MetricSummary F) → Option EvidenceItem
  summarized item none = none
  summarized item (some m) =
      some (record item { status = captured; result = bytes_of (api.summary_json m) })

  unfoldable pub read_data : String → EvidenceItem → String ⊎ List RawSeries → Option EvidenceItem
  unfolding summarized summarize
  read_data name item (inl msg) = some (fail item ("decode data: " ++ msg))
  read_data name item (inr []) = some (record item { status = gap; error = "no data for query" })
  read_data name item (inr (s ∷ rest)) =
      summarized item (summarize api.floats api.parse_float name (s ∷ rest))

  unfoldable pub read_response : String → EvidenceItem → String ⊎ PromResp → Option EvidenceItem
  unfolding read_data
  read_response name item (inl msg) = some (fail item ("decode response: " ++ msg))
  read_response name item (inr pr) =
      let found = read_data name item (api.decode_data pr.data_json) in
      if pr.status == "success" then found else some (fail item ("prometheus error: " ++ pr.error))

  -- what becomes of an answer; none is a panic
  unfoldable pub read_answer : String → EvidenceItem → HttpAnswer → Option EvidenceItem
  unfolding read_response http_error
  read_answer name item (unanswered msg) = some (fail item msg)
  read_answer name item (answered code body) =
      let response = read_response name item (api.decode_response body) in
      if eqb code 200 then response else some (fail item (http_error code (truncate body 200)))

  unfoldable pub run_range : Time → Query → TimeWindow → S → Option EvidenceItem × S
  unfolding range_request read_answer
  run_range timeout q w s =
      let r = range_request q w in
      let (answer, s') = api.get_range timeout r s in
      (read_answer q.name (new_item (api.request_json r)) answer, s')

  abbrev push : Option EvidenceItem → Option (List EvidenceItem) → Option (List EvidenceItem)
  push none rest = none
  push (some it) none = none
  push (some it) (some items) = some (it ∷ items)

  -- the loop over the queries
  unfoldable pub run_all : Time → List Query → TimeWindow → S → Option (List EvidenceItem) × S
  unfolding run_range
  run_all timeout [] w s = (some [], s)
  run_all timeout (q ∷ rest) w s =
      let (item, s1) = run_range timeout q w s in
      let (items, s2) = run_all timeout rest w s1 in (push item items, s2)

  unfoldable pub collect_metrics : Time → CollectTarget → S → Option (List EvidenceItem) × S
  unfolding run_all build_queries
  collect_metrics timeout target s = run_all timeout (build_queries target) target.window s

  abbrev or_nothing : Option (List EvidenceItem) × S → List EvidenceItem × S
  or_nothing (none, s) = ([], s)
  or_nothing (some items, s) = (items, s)

  -- the collector of the collection service; it does not panic
  unfoldable pub collector : Collector S
  unfolding collect_metrics
  collector = record {
    kind = "prometheus";
    timeout_hint = none;
    collect = λ timeout target s. or_nothing (collect_metrics timeout target s);
  }
