-- ===== src/Store/Analysis.antt =====
-- internal/store/analysis.go: the input of an analysis, and its outcome.
pub mod Answer
pub mod Current
pub mod Publish
use valaf.Common.{
  ℕ, suc, ◌+◌, String, Bool, true, false, ◌&&◌, ◌||◌, not, Option, none, some, List, [], ◌∷◌, ◌++◌,
  map, ltb, eqb, select, update, first, any, length, ◌==◌, if◌then◌else◌,
}
use valaf.Common.Maps.{Map, find}
use valaf.Common.Effect.{Error, Result, ok, err, constraint, Eff, pure, ◌>>=◌, ◌>>◌}
use valaf.Core.Alert.{RawMessage, Time}
use valaf.Core.Analyze.{
  EvidenceRef, SimilarIncident, Observation, Hypothesis, AnalysisRecord, AnalysisStatus, analyzed,
  failed, skipped, AnalysisRepository,
}
use valaf.Store.Tables.{
  IncidentStatus, opened, analyzing, published, resolved, false_positive, deleted, IncidentRow,
  EvidenceRow, AnalysisRow, ObservationRow, CitationRow, HypothesisRow, HypothesisEvidenceRow,
  SimilarRow, Tables,
}
use valaf.Store.Sql.{Conn, Sql, Query, exec, transaction, read, write, null_if_empty}
use valaf.Store.Jobs.{incident_exists}

-- UPDATE analyses SET is_current = false WHERE incident_id = $1 AND is_current
unfoldable pub clear_current : ℕ → List AnalysisRow → List AnalysisRow
clear_current incident_id =
    update (λ a. eqb a.incident_id incident_id && a.is_current)
      (λ a. record a { is_current = false })

abbrev pub new_analysis : Time → ℕ → ℕ → AnalysisRecord → AnalysisRow
new_analysis now id incident_id rec = record {
  id = id;
  incident_id = incident_id;
  provider = null_if_empty rec.provider;
  model = null_if_empty rec.model;
  status = rec.status;
  summary = null_if_empty rec.result.summary;
  timeline = rec.result.timeline;
  gaps = rec.result.gaps;
  triage_verdict = null_if_empty rec.triage_verdict;
  is_current = true;
  error = rec.error;
  created_at = now;
}

-- the cast to the enum `triage_verdict`; NULL passes
abbrev pub is_verdict : Option String → Bool
is_verdict none = true
is_verdict (some v) = (v == "actionable") || ((v == "likely_noise") || (v == "unknown"))

-- the cast to the enum `analysis_provider`; NULL passes
abbrev pub is_provider : Option String → Bool
is_provider none = true
is_provider (some p) = (p == "anthropic") || (p == "openai_compat")

abbrev pub is_storable : AnalysisRecord → Bool
is_storable rec =
    is_provider (null_if_empty rec.provider) && is_verdict (null_if_empty rec.triage_verdict)

unfoldable pub insert_analysis : Time → ℕ → AnalysisRecord → Query ℕ
insert_analysis now incident_id rec t =
    if incident_exists incident_id t && is_storable rec
    then ok (
      t.next_id,
      record t {
        next_id = suc t.next_id;
        analyses = t.analyses ++ new_analysis now t.next_id incident_id rec ∷ [];
      },
    )
    else err constraint

abbrev pub evidence_exists : ℕ → Tables → Bool
evidence_exists id t = any (λ (e : EvidenceRow). eqb e.id id) t.evidence_items

-- INSERT INTO observation_citations ... ON CONFLICT DO NOTHING, with its foreign key
unfoldable pub insert_citation : ℕ → ℕ → Query Unit
insert_citation obs_id id t =
    if any (λ (c : CitationRow). eqb c.observation_id obs_id && eqb c.evidence_item_id id)
      t.observation_citations
    then ok (tt, t)
    else if evidence_exists id t
    then ok (
      tt,
      record t {
        observation_citations =
            t.observation_citations
            ++ record { observation_id = obs_id; evidence_item_id = id } ∷ [];
      },
    )
    else err constraint

unfoldable pub cite : ℕ → Option ℕ → Sql Unit
unfolding insert_citation
cite obs_id none = pure tt
cite obs_id (some id) = exec (insert_citation obs_id id)

-- the inner loop of `insertObservations`: an unknown handle is passed over
unfoldable pub insert_citations : Map ℕ → ℕ → List String → Sql Unit
unfolding cite find
insert_citations ref_to_id obs_id [] = pure tt
insert_citations ref_to_id obs_id (ref ∷ rest) = do
  cite obs_id (find ref_to_id ref)
  insert_citations ref_to_id obs_id rest

unfoldable pub insert_observation : ℕ → ℕ → Observation → Query ℕ
insert_observation analysis_id ordinal o t = ok (
  t.next_id,
  record t {
    next_id = suc t.next_id;
    observations =
        t.observations
        ++ record { id = t.next_id; analysis_id = analysis_id; body = o.body; ordinal = ordinal }
          ∷ [];
  },
)

unfoldable pub insert_observations : Map ℕ → ℕ → ℕ → List Observation → Sql Unit
unfolding insert_observation insert_citations
insert_observations ref_to_id analysis_id ordinal [] = pure tt
insert_observations ref_to_id analysis_id ordinal (o ∷ rest) = do
  id ← exec (insert_observation analysis_id ordinal o)
  insert_citations ref_to_id id o.cites
  insert_observations ref_to_id analysis_id (suc ordinal) rest

unfoldable pub insert_link : ℕ → ℕ → String → Query Unit
insert_link hyp_id id relation t =
    if any
      (λ (l : HypothesisEvidenceRow).
        eqb l.hypothesis_id hyp_id && (eqb l.evidence_item_id id && (l.relation == relation)))
      t.hypothesis_evidence
    then ok (tt, t)
    else if evidence_exists id t
    then ok (
      tt,
      record t {
        hypothesis_evidence =
            t.hypothesis_evidence
            ++ record { hypothesis_id = hyp_id; evidence_item_id = id; relation = relation } ∷ [];
      },
    )
    else err constraint

unfoldable pub link : ℕ → String → Option ℕ → Sql Unit
unfolding insert_link
link hyp_id relation none = pure tt
link hyp_id relation (some id) = exec (insert_link hyp_id id relation)

unfoldable pub link_evidence : Map ℕ → ℕ → String → List String → Sql Unit
unfolding link find
link_evidence ref_to_id hyp_id relation [] = pure tt
link_evidence ref_to_id hyp_id relation (ref ∷ rest) = do
  link hyp_id relation (find ref_to_id ref)
  link_evidence ref_to_id hyp_id relation rest

unfoldable pub insert_hypothesis : ℕ → Hypothesis → Query ℕ
insert_hypothesis analysis_id h t = ok (
  t.next_id,
  record t {
    next_id = suc t.next_id;
    hypotheses =
        t.hypotheses
        ++ record {
          id = t.next_id;
          analysis_id = analysis_id;
          rank = h.rank;
          title = h.title;
          rationale = null_if_empty h.rationale;
          suggested_checks = h.checks;
          verdict = "none";
          verdict_note = none;
          verdict_by = none;
          verdict_at = none;
        }
          ∷ [];
  },
)

unfoldable pub insert_hypotheses : Map ℕ → ℕ → List Hypothesis → Sql Unit
unfolding insert_hypothesis link_evidence
insert_hypotheses ref_to_id analysis_id [] = pure tt
insert_hypotheses ref_to_id analysis_id (h ∷ rest) = do
  id ← exec (insert_hypothesis analysis_id h)
  link_evidence ref_to_id id "supporting" h.supporting
  link_evidence ref_to_id id "contradicting" h.contradicting
  insert_hypotheses ref_to_id analysis_id rest

unfoldable pub insert_similar : ℕ → SimilarIncident → Query Unit
insert_similar analysis_id s t =
    if any
      (λ (r : SimilarRow). eqb r.analysis_id analysis_id && eqb r.source_incident_id s.incident_id)
      t.similar_incidents
    then ok (tt, t)
    else if incident_exists s.incident_id t
    then ok (
      tt,
      record t {
        similar_incidents =
            t.similar_incidents
            ++ record {
              analysis_id = analysis_id;
              source_incident_id = s.incident_id;
              overlap = s.overlap_names;
              score = s.score;
            }
              ∷ [];
      },
    )
    else err constraint

-- the loop that records the provenance
unfoldable pub insert_similars : ℕ → List SimilarIncident → Sql Unit
unfolding insert_similar
insert_similars analysis_id [] = pure tt
insert_similars analysis_id (s ∷ rest) = do
  exec (insert_similar analysis_id s)
  insert_similars analysis_id rest

-- `if rec.Status == "ok"`
unfoldable pub insert_answer : ℕ → AnalysisRecord → AnalysisStatus → Sql Unit
unfolding insert_observations insert_hypotheses insert_similars
insert_answer analysis_id rec analyzed = do
  insert_observations rec.ref_to_id analysis_id 0 rec.result.observations
  insert_hypotheses rec.ref_to_id analysis_id rec.result.hypotheses
  insert_similars analysis_id rec.similar
insert_answer analysis_id rec _ = pure tt

-- status NOT IN ('resolved', 'false_positive', 'deleted')
abbrev pub can_publish : IncidentStatus → Bool
can_publish resolved = false
can_publish false_positive = false
can_publish deleted = false
can_publish _ = true

abbrev pub or_now : Option Time → Time → Option Time
or_now none now = some now
or_now (some t) now = some t

unfoldable pub publish : Time → ℕ → Option String → List IncidentRow → List IncidentRow
publish now incident_id verdict =
    update (λ i. eqb i.id incident_id && can_publish i.status)
      (λ i. record i {
        status = published;
        published_at = or_now i.published_at now;
        triage_verdict = verdict;
      })

unfoldable pub save_body : Time → ℕ → AnalysisRecord → Sql Unit
unfolding clear_current insert_analysis insert_answer publish
save_body now incident_id rec = do
  exec (write (λ t. record t { analyses = clear_current incident_id t.analyses }))
  id ← exec (insert_analysis now incident_id rec)
  insert_answer id rec rec.status
  exec (
      write (λ t. record t {
        incidents = publish now incident_id (null_if_empty rec.triage_verdict) t.incidents;
      }))

-- `SaveAnalysis`
unfoldable pub save_analysis : Time → ℕ → AnalysisRecord → Sql Unit
unfolding save_body
save_analysis now incident_id rec = transaction (save_body now incident_id rec)
