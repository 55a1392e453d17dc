-- ===== src/Core/Analyze.antt =====
-- internal/core/analyze.go. The children prove what the enforcement of citations and the service
-- guarantee.
pub mod Citations
pub mod Grounded
pub mod Service
use valaf.Common.{
  ℕ, suc, ◌+◌, String, Bool, true, false, ◌&&◌, not, Option, none, some, List, [], ◌∷◌,
  if◌then◌else◌,
}
use valaf.Common.Text.{Text, codes, trim_space, to_lower, one_of}
use valaf.Common.Maps.{Map, put, is_set}
use valaf.Common.Effect.{Error, Result, ok, err, message, Eff, pure, attempt, ◌>>=◌}
use valaf.Core.Alert.{RawMessage}

pub record EvidenceRef : Type 0 where
  pub ref : String
  pub id : ℕ
  pub collector : String
  pub kind : String
  pub status : String
  pub request : RawMessage
  pub result : RawMessage

-- `Score` is the length of `overlap_names`, a whole number
pub record SimilarIncident : Type 0 where
  pub incident_id : ℕ
  pub title : String
  pub root_cause : String
  pub solution : String
  pub confirmed : List String
  pub ruled_out : List String
  pub overlap_names : List String
  pub score : ℕ

pub record AnalysisRequest : Type 0 where
  pub incident_title : String
  pub severity : String
  pub entity_bag : Map String
  pub evidence : List EvidenceRef
  pub similar : List SimilarIncident

pub record TimelineEntry : Type 0 where
  pub at : String
  pub text : String

pub record Observation : Type 0 where
  pub body : String
  pub cites : List String

pub record Hypothesis : Type 0 where
  pub rank : ℕ
  pub title : String
  pub rationale : String
  pub supporting : List String
  pub contradicting : List String
  pub checks : List String

pub record AnalysisResult : Type 0 where
  pub summary : String
  pub timeline : List TimelineEntry
  pub observations : List Observation
  pub hypotheses : List Hypothesis
  pub gaps : List String
  pub triage_verdict : String

pub record AiProvider (S : Type 0) : Type 0 where
  pub name : String
  pub model : String
  pub analyze : AnalysisRequest → Eff S AnalysisResult

pub data AnalysisStatus : Type 0 where
  analyzed failed skipped : AnalysisStatus  -- "ok", "failed", "skipped"

pub record AnalysisRecord : Type 0 where
  pub provider : String
  pub model : String
  pub status : AnalysisStatus
  pub error : Option Error
  pub result : AnalysisResult
  pub ref_to_id : Map ℕ
  pub triage_verdict : String
  pub similar : List SimilarIncident

pub record AnalysisRepository (S : Type 0) : Type 0 where
  pub load_analysis_request : ℕ → Eff S AnalysisRequest
  pub save_analysis : ℕ → AnalysisRecord → Eff S Unit

pub record CitationReport : Type 0 where
  pub dropped_observations : ℕ
  pub dropped_hypotheses : ℕ
  pub dropped_refs : ℕ

abbrev pub empty_report : CitationReport
empty_report = record { dropped_observations = 0; dropped_hypotheses = 0; dropped_refs = 0 }

abbrev pub is_empty : List String → Bool
is_empty [] = true
is_empty (_ ∷ _) = false

-- the kept references, and the counter behind the pointer
unfoldable pub filter_refs : List String → Map Bool → ℕ → List String × ℕ
filter_refs [] valid dropped = ([], dropped)
filter_refs (r ∷ rest) valid dropped =
    let (out, dropped') =
      filter_refs rest valid (if is_set valid r then dropped else suc dropped) in
    (if is_set valid r then r ∷ out else out, dropped')

-- the loop over the observations
unfoldable pub keep_observations :
    List Observation → Map Bool → CitationReport → List Observation × CitationReport
keep_observations [] valid rep = ([], rep)
keep_observations (o ∷ rest) valid rep =
    let (cites, dropped) = filter_refs o.cites valid rep.dropped_refs in
    let (kept, rep') = keep_observations rest valid (record {
      dropped_observations =
          if is_empty cites then suc rep.dropped_observations else rep.dropped_observations;
      dropped_hypotheses = rep.dropped_hypotheses;
      dropped_refs = dropped;
    }) in
    (if is_empty cites then kept else record o { cites = cites } ∷ kept, rep')

-- the loop over the hypotheses, over its variable `rank`
unfoldable pub keep_hypotheses :
    List Hypothesis → Map Bool → ℕ → CitationReport → List Hypothesis × CitationReport
keep_hypotheses [] valid rank rep = ([], rep)
keep_hypotheses (h ∷ rest) valid rank rep =
    let (sup, dropped) = filter_refs h.supporting valid rep.dropped_refs in
    let (con, dropped') = filter_refs h.contradicting valid dropped in
    let unsupported = is_empty sup && is_empty con in
    let (kept, rep') = keep_hypotheses rest valid (if unsupported then rank else suc rank) (record {
      dropped_observations = rep.dropped_observations;
      dropped_hypotheses =
          if unsupported then suc rep.dropped_hypotheses else rep.dropped_hypotheses;
      dropped_refs = dropped';
    }) in
    (
      if unsupported
          then kept
          else record h { rank = suc rank; supporting = sup; contradicting = con } ∷ kept,
      rep',
    )

unfoldable pub enforce_citations : AnalysisResult → Map Bool → AnalysisResult × CitationReport
unfolding keep_observations keep_hypotheses
enforce_citations res valid =
    let (obs, rep) = keep_observations res.observations valid empty_report in
    let (hyp, rep') = keep_hypotheses res.hypotheses valid 0 rep in
    (record res { observations = obs; hypotheses = hyp }, rep')

-- the `switch` of `NormalizeVerdict`
unfoldable pub verdict_of_word : Text → String
unfolding one_of
verdict_of_word w =
    if one_of w ("actionable" ∷ [])
    then "actionable"
    else if one_of w ("likely_noise" ∷ "noise" ∷ "likely-noise" ∷ "likely noise" ∷ [])
    then "likely_noise"
    else "unknown"

unfoldable pub normalize_verdict : String → String
unfolding verdict_of_word to_lower trim_space
normalize_verdict v = verdict_of_word (to_lower (trim_space (codes v)))

-- the loop of `refIndex`, over its two maps
unfoldable pub index_from : List EvidenceRef → Map Bool → Map ℕ → Map Bool × Map ℕ
index_from [] valid ref_to_id = (valid, ref_to_id)
index_from (e ∷ rest) valid ref_to_id =
    index_from rest (put valid e.ref true) (put ref_to_id e.ref e.id)

unfoldable pub ref_index : List EvidenceRef → Map Bool × Map ℕ
unfolding index_from
ref_index evidence = index_from evidence [] []

abbrev pub no_result : AnalysisResult
no_result = record {
  summary = "";
  timeline = [];
  observations = [];
  hypotheses = [];
  gaps = [];
  triage_verdict = "";
}

unfoldable pub skipped_record : AnalysisRecord
skipped_record = record {
  provider = "";
  model = "";
  status = skipped;
  error = none;
  result = no_result;
  ref_to_id = [];
  triage_verdict = "unknown";
  similar = [];
}

module _ {S : Type 0} where
  unfoldable pub failed_record : AiProvider S → Error → AnalysisRecord
  failed_record p e = record {
    provider = p.name;
    model = p.model;
    status = failed;
    error = some e;
    result = no_result;
    ref_to_id = [];
    triage_verdict = "unknown";
    similar = [];
  }

  unfoldable pub ok_record : AiProvider S → AnalysisRequest → AnalysisResult → AnalysisRecord
  unfolding ref_index
  ok_record p req raw =
      let (valid, ref_to_id) = ref_index req.evidence in
      let res = (enforce_citations raw valid).0 in
      record {
        provider = p.name;
        model = p.model;
        status = analyzed;
        error = none;
        result = res;
        ref_to_id = ref_to_id;
        triage_verdict = normalize_verdict res.triage_verdict;
        similar = req.similar;
      }

  record_of_answer : AiProvider S → AnalysisRequest → Result AnalysisResult → AnalysisRecord
  unfolding failed_record ok_record
  record_of_answer p req (err e) = failed_record p e
  record_of_answer p req (ok res) = ok_record p req res

  -- the record of one run: nothing is asked where no provider is configured
  unfoldable pub run_provider : Option (AiProvider S) → AnalysisRequest → Eff S AnalysisRecord
  unfolding record_of_answer skipped_record
  run_provider none req = pure skipped_record
  run_provider (some p) req = do
    answer ← attempt (p.analyze req)
    pure (record_of_answer p req answer)

  -- `Analyze` of the service
  unfoldable pub analyze : Option (AiProvider S) → AnalysisRepository S → ℕ → Eff S Unit
  unfolding run_provider
  analyze provider repo incident_id = do
    req ← repo.load_analysis_request incident_id
    rec ← run_provider provider req
    repo.save_analysis incident_id rec
