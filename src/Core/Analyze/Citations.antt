-- ===== src/Core/Analyze/Citations.antt =====
-- What `EnforceCitations` leaves of a model's answer, and what it reports.
use valaf.Common.{
  ℕ, suc, ◌+◌, String, ◌≡◌, Bool, true, ◌&&◌, not, List, [], ◌∷◌, map, select, count, arith,
  if◌then◌else◌,
}
use valaf.Common.Maps.{Map, is_set}
use valaf.Core.Analyze.{
  Observation, Hypothesis, AnalysisResult, CitationReport, empty_report, is_empty, filter_refs,
  keep_observations, keep_hypotheses, enforce_citations,
}

abbrev pub IsValidRef : Map Bool → String → Type 0
IsValidRef valid r = is_set valid r ≡ true

module _ (valid : Map Bool) where
  abbrev pub is_dangling : String → Bool
  is_dangling r = not (is_set valid r)

  filter_refs_lem :
      (refs : List String) (d : ℕ)
      → filter_refs refs valid d ≡ (select (is_set valid) refs, d + count is_dangling refs)
  unfolding filter_refs
  filter_refs_lem [] d = ground arith
  filter_refs_lem (r ∷ rest) d =
      ground (arith, filter_refs_lem rest (if is_set valid r then d else suc d))

  -- how an observation is kept: without its dangling references, and only with some reference left
  unfoldable pub trim_observation : Observation → Observation
  trim_observation o = record o { cites = select (is_set valid) o.cites }

  unfoldable pub is_cited : Observation → Bool
  is_cited o = not (is_empty (select (is_set valid) o.cites))

  unfoldable pub trim_hypothesis : Hypothesis → Hypothesis
  trim_hypothesis h = record h {
    supporting = select (is_set valid) h.supporting;
    contradicting = select (is_set valid) h.contradicting;
  }

  unfoldable pub is_supported : Hypothesis → Bool
  is_supported h = not (
      is_empty (select (is_set valid) h.supporting)
      && is_empty (select (is_set valid) h.contradicting))

  unfoldable pub dangling_cites : List Observation → ℕ
  dangling_cites [] = 0
  dangling_cites (o ∷ rest) = count is_dangling o.cites + dangling_cites rest

  unfoldable pub dangling_evidence : List Hypothesis → ℕ
  dangling_evidence [] = 0
  dangling_evidence (h ∷ rest) =
      count is_dangling h.supporting + count is_dangling h.contradicting + dangling_evidence rest

  pub keep_observations_lem :
      (obs : List Observation) (rep : CitationReport)
      → keep_observations obs valid rep ≡ (
        map trim_observation (select is_cited obs),
        record rep {
          dropped_observations = rep.dropped_observations + count (λ o. not (is_cited o)) obs;
          dropped_refs = rep.dropped_refs + dangling_cites obs;
        },
      )
  unfolding keep_observations trim_observation is_cited dangling_cites
  keep_observations_lem [] rep = ground arith
  keep_observations_lem (o ∷ rest) rep =
      rw (filter_refs_lem o.cites rep.dropped_refs) (rw (keep_observations_lem rest) (ground arith))

  -- ranks counted on from `rank`
  unfoldable pub rerank : ℕ → List Hypothesis → List Hypothesis
  rerank rank [] = []
  rerank rank (h ∷ rest) = record h { rank = suc rank } ∷ rerank (suc rank) rest

  pub keep_hypotheses_lem :
      (hyp : List Hypothesis) (rank : ℕ) (rep : CitationReport)
      → keep_hypotheses hyp valid rank rep ≡ (
        rerank rank (map trim_hypothesis (select is_supported hyp)),
        record rep {
          dropped_hypotheses = rep.dropped_hypotheses + count (λ h. not (is_supported h)) hyp;
          dropped_refs = rep.dropped_refs + dangling_evidence hyp;
        },
      )
  unfolding keep_hypotheses trim_hypothesis is_supported dangling_evidence rerank
  keep_hypotheses_lem [] rank rep = ground arith
  keep_hypotheses_lem (h ∷ rest) rank rep = rw (filter_refs_lem h.supporting rep.dropped_refs) (
      rw (filter_refs_lem h.contradicting (rep.dropped_refs + count is_dangling h.supporting))
        (rw (keep_hypotheses_lem rest) (ground arith)))

  -- An answer is kept as a declarative description says: of the observations those with a valid
  -- citation and of the hypotheses those with valid evidence, in their order, without the dangling
  -- references, the hypotheses ranked anew from 1; nothing else of the answer changes. The report
  -- counts the observations, hypotheses and references that went.
  pub enforce_citations_lem :
      (res : AnalysisResult)
      → enforce_citations res valid ≡ (
        record res {
          observations = map trim_observation (select is_cited res.observations);
          hypotheses = rerank 0 (map trim_hypothesis (select is_supported res.hypotheses));
        },
        record {
          dropped_observations = count (λ o. not (is_cited o)) res.observations;
          dropped_hypotheses = count (λ h. not (is_supported h)) res.hypotheses;
          dropped_refs = dangling_cites res.observations + dangling_evidence res.hypotheses;
        },
      )
  unfolding enforce_citations
  enforce_citations_lem res =
      rw (keep_observations_lem res.observations empty_report)
        (rw (keep_hypotheses_lem res.hypotheses 0) (ground arith))
