-- ===== src/Store/Retrieval.antt =====
-- `LoadAnalysisRequest` and `loadSimilar` of internal/store/analysis.go: the evidence with its
-- handles, and the past incidents that inform an analysis.
use Prim.Native.Nat.{◌/◌, ◌%◌}
use Prim.Native.Char.{Char}
use valaf.Common.{
  ℕ, zero, suc, String, Bool, true, false, ◌&&◌, ◌||◌, not, Option, none, some, List, [], ◌∷◌, map,
  ltb, eqb, select, first, any, length, ◌==◌, if◌then◌else◌,
}
use valaf.Common.Effect.{pure, ◌>>=◌}
use valaf.Core.Alert.{Time}
use valaf.Core.Collect.{EvidenceStatus, captured, gap, failed}
use valaf.Core.Analyze.{EvidenceRef, SimilarIncident, AnalysisRequest, AnalysisRepository}
use valaf.Store.Tables.{
  IncidentStatus, resolved, IncidentRow, EvidenceRow, AnalysisRow, HypothesisRow, ResolutionRow,
  Tables,
}
use valaf.Store.Sql.{Conn, Sql, exec, read, or_empty}
use valaf.Store.Incidents.{alerts_of, find_incident, row_query, alertnames_of}
use valaf.Store.Analysis.{save_analysis}

digit : ℕ → Char
digit n =
    if eqb n 0
    then "0"
    else if eqb n 1
    then "1"
    else if eqb n 2
    then "2"
    else if eqb n 3
    then "3"
    else if eqb n 4
    then "4"
    else if eqb n 5
    then "5"
    else if eqb n 6
    then "6"
    else if eqb n 7
    then "7"
    else if eqb n 8
    then "8"
    else "9"

-- strconv.Itoa: the quotient falls, so that `n + 1` rounds are enough
itoa_from : ℕ → ℕ → String → String
unfolding digit
itoa_from zero n acc = acc
itoa_from (suc fuel) n acc =
    let acc' = String.◌∷◌ (digit (n % 10)) acc in
    let rest = itoa_from fuel (n / 10) acc' in if ltb n 10 then acc' else rest

unfoldable pub itoa : ℕ → String
unfolding itoa_from
itoa n = itoa_from (suc n) n ""

unfoldable pub handle : ℕ → String
unfolding itoa
handle i = String.◌∷◌ "E" (itoa i)

abbrev pub status_text : EvidenceStatus → String
status_text captured = "ok"
status_text gap = "gap"
status_text failed = "failed"

unfoldable pub evidence_ref : ℕ → EvidenceRow → EvidenceRef
unfolding handle
evidence_ref i e = record {
  ref = handle i;
  id = e.id;
  collector = e.collector;
  kind = e.kind;
  status = status_text e.status;
  request = e.request;
  result = or_empty e.result;
}

-- the loop over the rows, over its counter
unfoldable pub number_refs : ℕ → List EvidenceRow → List EvidenceRef
unfolding evidence_ref
number_refs i [] = []
number_refs i (e ∷ rest) = evidence_ref (suc i) e ∷ number_refs (suc i) rest

-- captured_at, then id
abbrev pub before : EvidenceRow → EvidenceRow → Bool
before a b = ltb a.captured_at b.captured_at || (eqb a.captured_at b.captured_at && ltb a.id b.id)

unfoldable pub insert_sorted : {A : Type 0} → (A → A → Bool) → A → List A → List A
insert_sorted less a [] = a ∷ []
insert_sorted less a (b ∷ rest) = if less b a then b ∷ insert_sorted less a rest else a ∷ b ∷ rest

-- ORDER BY
unfoldable pub order_by : {A : Type 0} → (A → A → Bool) → List A → List A
unfolding insert_sorted
order_by less [] = []
order_by less (a ∷ rest) = insert_sorted less a (order_by less rest)

abbrev pub valid_evidence : ℕ → Tables → List EvidenceRow
valid_evidence id t =
    order_by before
      (select (λ (e : EvidenceRow). eqb e.incident_id id && e.is_valid) t.evidence_items)

-- a row of the first query of `loadSimilar`
pub record SimilarMatch : Type 0 where
  pub incident : IncidentRow
  pub resolution : ResolutionRow
  pub overlap : List String

abbrev pub is_resolved : IncidentStatus → Bool
is_resolved resolved = true
is_resolved _ = false

-- the other incident's alertnames that are among `mine`
abbrev pub shared_names : List String → List String → List String
shared_names mine theirs = select (λ n. any (λ m. m == n) mine) theirs

abbrev pub resolution_of : ℕ → Tables → Option ResolutionRow
resolution_of id t = first (select (λ (r : ResolutionRow). eqb r.incident_id id) t.resolutions)

match_if : IncidentRow → Option ResolutionRow → List String → List SimilarMatch → List SimilarMatch
match_if i none names rest = rest
match_if i (some r) [] rest = rest
match_if i (some r) (n ∷ names) rest =
    record { incident = i; resolution = r; overlap = n ∷ names } ∷ rest

-- the joins and the WHERE clause
unfoldable pub matches : Tables → ℕ → List String → List IncidentRow → List SimilarMatch
unfolding match_if
matches t id mine [] = []
matches t id mine (i ∷ rest) =
    let others = matches t id mine rest in
    if is_resolved i.status && not (eqb i.id id)
    then match_if i (resolution_of i.id t) (shared_names mine (alertnames_of (alerts_of i.id t)))
        others
    else others

-- `resolved_at DESC`: NULLs come first
abbrev pub later : Option Time → Option Time → Bool
later none none = false
later none (some _) = true
later (some _) none = false
later (some a) (some b) = ltb b a

-- more shared alertnames first, then the later resolution
abbrev pub closer : SimilarMatch → SimilarMatch → Bool
closer a b =
    ltb (length b.overlap) (length a.overlap)
    || (eqb (length a.overlap) (length b.overlap)
        && later a.incident.resolved_at b.incident.resolved_at)

abbrev pub take : {A : Type 0} → ℕ → List A → List A
take zero xs = []
take (suc n) [] = []
take (suc n) (x ∷ xs) = x ∷ take n xs

-- `maxSimilar`
abbrev pub max_similar : ℕ
max_similar = 3

abbrev pub current_hypotheses : ℕ → Tables → List HypothesisRow
current_hypotheses id t =
    select
      (λ (h : HypothesisRow).
        any (λ (a : AnalysisRow). eqb a.id h.analysis_id && (eqb a.incident_id id && a.is_current))
          t.analyses)
      t.hypotheses

abbrev pub titles_with : String → List HypothesisRow → List String
titles_with verdict hyps =
    map (λ h. h.title) (select (λ (h : HypothesisRow). h.verdict == verdict) hyps)

-- a match with the engineers' verdicts on the hypotheses of its current analysis
unfoldable pub similar_of : Tables → SimilarMatch → SimilarIncident
similar_of t m = record {
  incident_id = m.incident.id;
  title = m.incident.title;
  root_cause = m.resolution.root_cause;
  solution = or_empty m.resolution.ultimate_solution;
  confirmed = titles_with "confirmed" (current_hypotheses m.incident.id t);
  ruled_out = titles_with "rejected" (current_hypotheses m.incident.id t);
  overlap_names = m.overlap;
  score = length m.overlap;
}

unfoldable pub similar_matches : ℕ → Tables → List SimilarMatch
unfolding matches order_by
similar_matches id t =
    take max_similar (order_by closer (matches t id (alertnames_of (alerts_of id t)) t.incidents))

-- the second loop: one query for each match
attach_verdicts : List SimilarMatch → Sql (List SimilarIncident)
unfolding similar_of
attach_verdicts [] = pure []
attach_verdicts (m ∷ rest) = do
  s ← exec (read (λ t. similar_of t m))
  others ← attach_verdicts rest
  pure (s ∷ others)

unfoldable pub load_similar : ℕ → Sql (List SimilarIncident)
unfolding attach_verdicts similar_matches
load_similar id = do found ← exec (read (similar_matches id)); attach_verdicts found

unfoldable pub load_analysis_request : ℕ → Sql AnalysisRequest
unfolding load_similar number_refs
load_analysis_request id = do
  i ← exec (row_query (find_incident id))
  rows ← exec (read (valid_evidence id))
  similar ← load_similar id
  pure (record {
    incident_title = i.title;
    severity = i.severity;
    entity_bag = i.entity_bag;
    evidence = number_refs 0 rows;
    similar = similar;
  })

abbrev pub analysis_repo : Time → AnalysisRepository Conn
analysis_repo now = record {
  load_analysis_request = load_analysis_request;
  save_analysis = save_analysis now;
}
