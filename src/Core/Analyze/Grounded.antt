-- ===== src/Core/Analyze/Grounded.antt =====
-- Whatever a model answers, what is stored cites evidence that exists, and is ranked from 1.
use valaf.Common.{
  ℕ, suc, String, ◌≡◌, refl, Bool, false, ◌&&◌, not, Bool-cases, inl, inr, List, [], ◌∷◌, map,
  select, All, arith,
}
use valaf.Common.Maps.{Map, is_set}
use valaf.Core.Analyze.{
  Observation, Hypothesis, AnalysisResult, CitationReport, empty_report, is_empty, filter_refs,
  keep_observations, keep_hypotheses, enforce_citations,
}
use valaf.Core.Analyze.Citations.{
  IsValidRef, trim_observation, is_cited, trim_hypothesis, is_supported, rerank,
  enforce_citations_lem,
}

abbrev pub Ranked : ℕ → List Hypothesis → Type 0
Ranked rank [] = Unit
Ranked rank (h ∷ rest) = (h.rank ≡ suc rank) × Ranked (suc rank) rest

module _ (valid : Map Bool) where
  abbrev pub IsCited : Observation → Type 0
  IsCited o = All (IsValidRef valid) o.cites × (is_empty o.cites ≡ false)

  abbrev pub IsSupported : Hypothesis → Type 0
  IsSupported h =
      All (IsValidRef valid) h.supporting
      × All (IsValidRef valid) h.contradicting
      × ((is_empty h.supporting && is_empty h.contradicting) ≡ false)

  select-valid : (refs : List String) → All (IsValidRef valid) (select (is_set valid) refs)
  select-valid [] = tt
  select-valid (r ∷ rest) = elim (Bool-cases (is_set valid r)) [
    | inl e ↦ rw e (e, select-valid rest)
    | inr e ↦ rw e (select-valid rest)
  ]

  kept_IsCited :
      (obs : List Observation)
      → All IsCited (map (trim_observation valid) (select (is_cited valid) obs))
  unfolding trim_observation is_cited
  kept_IsCited [] = tt
  kept_IsCited (o ∷ rest) = elim (Bool-cases (not (is_empty (select (is_set valid) o.cites)))) [
    | inl e ↦ rw e ((select-valid o.cites, ground arith), kept_IsCited rest)
    | inr e ↦ rw e (kept_IsCited rest)
  ]

  unsupported : Hypothesis → Bool
  unsupported h =
      is_empty (select (is_set valid) h.supporting)
      && is_empty (select (is_set valid) h.contradicting)

  kept_IsSupported :
      (rank : ℕ) (hyp : List Hypothesis)
      → All IsSupported
          (rerank valid rank (map (trim_hypothesis valid) (select (is_supported valid) hyp)))
  unfolding trim_hypothesis is_supported rerank unsupported
  kept_IsSupported rank [] = tt
  kept_IsSupported rank (h ∷ rest) = elim (Bool-cases (not (unsupported h))) [
    | inl e ↦ rw e (
      (select-valid h.supporting, select-valid h.contradicting, ground arith),
      kept_IsSupported (suc rank) rest,
    )
    | inr e ↦ rw e (kept_IsSupported rank rest)
  ]

  rerank-Ranked : (rank : ℕ) (hyp : List Hypothesis) → Ranked rank (rerank valid rank hyp)
  unfolding rerank
  rerank-Ranked rank [] = tt
  rerank-Ranked rank (h ∷ rest) = (refl, rerank-Ranked (suc rank) rest)

  -- After enforcement every observation cites at least one piece of evidence and only evidence that
  -- exists, every hypothesis has supporting or contradicting evidence and only evidence that
  -- exists, and the hypotheses carry the ranks 1, 2, 3 and so on.
  pub enforce_citations-IsGrounded :
      (res : AnalysisResult)
      → All IsCited (enforce_citations res valid).0.observations
        × All IsSupported (enforce_citations res valid).0.hypotheses
        × Ranked 0 (enforce_citations res valid).0.hypotheses
  enforce_citations-IsGrounded res = rw (enforce_citations_lem valid res) (
    kept_IsCited res.observations,
    kept_IsSupported 0 res.hypotheses,
    rerank-Ranked 0 (map (trim_hypothesis valid) (select (is_supported valid) res.hypotheses)),
  )

  filter_refs-valid :
      (refs : List String) (d : ℕ)
      → All (IsValidRef valid) refs
      → filter_refs refs valid d ≡ (refs, d)
  unfolding filter_refs
  filter_refs-valid [] d h = refl
  filter_refs-valid (r ∷ rest) d h = rw h.0 (rw (filter_refs-valid rest d h.1))

  keep_observations-cited :
      (obs : List Observation) (rep : CitationReport)
      → All IsCited obs
      → keep_observations obs valid rep ≡ (obs, rep)
  unfolding keep_observations
  keep_observations-cited [] rep h = refl
  keep_observations-cited (o ∷ rest) rep h =
      rw (filter_refs-valid o.cites rep.dropped_refs h.0.0)
        (rw h.0.1 (rw (keep_observations-cited rest rep h.1)))

  keep_hypotheses-supported :
      (hyp : List Hypothesis) (rank : ℕ) (rep : CitationReport)
      → All IsSupported hyp
      → Ranked rank hyp
      → keep_hypotheses hyp valid rank rep ≡ (hyp, rep)
  unfolding keep_hypotheses
  keep_hypotheses-supported [] rank rep h k = refl
  keep_hypotheses-supported (x ∷ rest) rank rep h k =
      rw (filter_refs-valid x.supporting rep.dropped_refs h.0.0) (
        rw (filter_refs-valid x.contradicting rep.dropped_refs h.0.1)
          (rw h.0.2 (rw (keep_hypotheses-supported rest (suc rank) rep h.1 k.1) (ground arith))))

  -- Enforcement is idempotent: run on its own result it drops nothing, changes nothing and reports
  -- nothing.
  pub enforce_citations-enforce_citations :
      (res : AnalysisResult)
      → enforce_citations (enforce_citations res valid).0 valid
        ≡ ((enforce_citations res valid).0, empty_report)
  enforce_citations-enforce_citations res =
      go (enforce_citations res valid).0 (enforce_citations-IsGrounded res)
    where
      go :
          (r : AnalysisResult)
          → All IsCited r.observations × All IsSupported r.hypotheses × Ranked 0 r.hypotheses
          → enforce_citations r valid ≡ (r, empty_report)
      go r (c, s, k) =
          unfold enforce_citations in
          rw (keep_observations-cited r.observations empty_report c)
            (rw (keep_hypotheses-supported r.hypotheses 0 empty_report s k))
