-- ===== src/Core/Analyze/Service.antt =====
-- What the analysis service hands to the repository, whatever the provider does.
use mathlib.Core.Path.{subst}
use text.Mathlib.TextEquality.{eq_iff}
use valaf.Common.{
  ℕ, String, ◌≡◌, refl, Bool, true, false, Bool-cases, ◌⊎◌, inl, inr, List, [], ◌∷◌, All, In, arith,
  Option, some, none, ◌==◌,
}
use valaf.Common.Maps.{Map, is_set, find, put, find-put, is_set-put}
use valaf.Common.Effect.{Result, ok, err}
use valaf.Common.Text.{Text, codes, trim_space, to_lower}
use valaf.Core.Analyze.{
  EvidenceRef, AnalysisResult, AnalysisRequest, AnalysisRecord, AiProvider, AnalysisRepository,
  index_from, ref_index, enforce_citations, verdict_of_word, normalize_verdict, skipped_record,
  failed_record, ok_record, run_provider, analyze,
}
use valaf.Core.Analyze.Citations.{IsValidRef}
use valaf.Core.Analyze.Grounded.{IsCited, IsSupported, enforce_citations-IsGrounded}

-- A reference is that of some evidence, under whose id the map has it.
abbrev Resolves : List EvidenceRef → Map ℕ → String → Type 0
Resolves evidence ids r = (e : EvidenceRef) × In e evidence × (e.ref ≡ r) × (find ids r ≡ some e.id)

abbrev pub AllResolve : List EvidenceRef → Map Bool → Map ℕ → Type 0
AllResolve evidence valid ids = (r : String) → is_set valid r ≡ true → Resolves evidence ids r

AllResolve-put :
    (evidence : List EvidenceRef) (e : EvidenceRef) (valid : Map Bool) (ids : Map ℕ)
    → In e evidence
    → AllResolve evidence valid ids
    → AllResolve evidence (put valid e.ref true) (put ids e.ref e.id)
AllResolve-put evidence e valid ids i h r v = elim (Bool-cases (e.ref == r)) [
  | inl same ↦ (e, i, (eq_iff e.ref r).0 same, rw find-put (rw same))
  | inr other ↦
      let (x, j, q, f) = h r (subst (λ b. b ≡ true) (is_set_other other) v) in
      (x, j, q, rw find-put (rw other f))
]
  where
    is_set_other : (e.ref == r) ≡ false → is_set (put valid e.ref true) r ≡ is_set valid r
    is_set_other other = rw is_set-put (rw other)

index_from-AllResolve :
    (all rest : List EvidenceRef) (valid : Map Bool) (ids : Map ℕ)
    → All (λ e. In e all) rest
    → AllResolve all valid ids
    → AllResolve all (index_from rest valid ids).0 (index_from rest valid ids).1
unfolding index_from
index_from-AllResolve all [] valid ids i h = h
index_from-AllResolve all (e ∷ rest) valid ids i h =
    index_from-AllResolve all rest (put valid e.ref true) (put ids e.ref e.id) i.1
      (AllResolve-put all e valid ids i.0 h)

-- Every handle that counts as valid belongs to a piece of evidence, and its id is that evidence's.
pub ref_index-AllResolve :
    (evidence : List EvidenceRef)
    → AllResolve evidence (ref_index evidence).0 (ref_index evidence).1
unfolding ref_index
ref_index-AllResolve evidence =
    index_from-AllResolve evidence evidence [] [] (all_In evidence)
      (λ r v. unfold is_set find in cc)
  where
    weaken :
        (e : EvidenceRef) (xs ys : List EvidenceRef)
        → All (λ x. In x ys) xs
        → All (λ x. In x (e ∷ ys)) xs
    weaken e [] ys h = tt
    weaken e (x ∷ xs) ys h = (inr h.0, weaken e xs ys h.1)

    all_In : (xs : List EvidenceRef) → All (λ e. In e xs) xs
    all_In [] = tt
    all_In (x ∷ xs) = (inl refl, weaken x xs xs (all_In xs))

-- The values of the enum `triage_verdict`.
abbrev pub IsVerdict : String → Type 0
IsVerdict v = (v ≡ "actionable") ⊎ ((v ≡ "likely_noise") ⊎ (v ≡ "unknown"))

verdict_of_word-IsVerdict : (w : Text) → IsVerdict (verdict_of_word w)
unfolding verdict_of_word
verdict_of_word-IsVerdict w = ground arith

normalize_verdict-normal : (v : String) → IsVerdict v → normalize_verdict v ≡ v
normalize_verdict-normal v (inl e) = rw e (unfold normalize_verdict in refl)
normalize_verdict-normal v (inr (inl e)) = rw e (unfold normalize_verdict in refl)
normalize_verdict-normal v (inr (inr e)) = rw e (unfold normalize_verdict in refl)

IsVerdict-normalize_verdict : (v : String) → IsVerdict (normalize_verdict v)
unfolding normalize_verdict
IsVerdict-normalize_verdict v = verdict_of_word-IsVerdict (to_lower (trim_space (codes v)))

-- Whatever text a model gives as its verdict, the normalised one is a value of the enum
-- `triage_verdict`, and normalising it once more changes nothing.
pub normalize_verdict-IsVerdict :
    (v : String)
    → IsVerdict (normalize_verdict v)
      × (normalize_verdict (normalize_verdict v) ≡ normalize_verdict v)
normalize_verdict-IsVerdict v =
    let e = IsVerdict-normalize_verdict v in (e, normalize_verdict-normal (normalize_verdict v) e)

-- A record that can be stored: its verdict is a value of the enum, and each of its citations
-- resolves to a piece of the evidence of the request.
pub record IsPublishable (req : AnalysisRequest) (rec : AnalysisRecord) : Type 0 where
  pub verdict : IsVerdict rec.triage_verdict
  pub observations :
      All (λ o. All (Resolves req.evidence rec.ref_to_id) o.cites) rec.result.observations
  pub hypotheses :
      All
        (λ h.
          All (Resolves req.evidence rec.ref_to_id) h.supporting
          × All (Resolves req.evidence rec.ref_to_id) h.contradicting)
        rec.result.hypotheses

All-map :
    {A : Type 0} (P Q : A → Type 0) → ((a : A) → P a → Q a) → (xs : List A) → All P xs → All Q xs
All-map P Q f [] h = tt
All-map P Q f (x ∷ xs) h = (f x h.0, All-map P Q f xs h.1)

module _ {S : Type 0} where
  ok_record-IsPublishable :
      (p : AiProvider S) (req : AnalysisRequest) (raw : AnalysisResult)
      → IsPublishable req (ok_record p req raw)
  unfolding ok_record
  ok_record-IsPublishable p req raw =
      let resolve = ref_index-AllResolve req.evidence in
      let valid = (ref_index req.evidence).0 in
      let ids = (ref_index req.evidence).1 in
      let grounded = enforce_citations-IsGrounded valid raw in
      let all_resolve = All-map (IsValidRef valid) (Resolves req.evidence ids) resolve in
      record {
        verdict = (normalize_verdict-IsVerdict (enforce_citations raw valid).0.triage_verdict).0;
        observations =
            All-map (IsCited valid) (λ o. All (Resolves req.evidence ids) o.cites)
              (λ o h. all_resolve o.cites h.0) (enforce_citations raw valid).0.observations
              grounded.0;
        hypotheses =
            All-map (IsSupported valid)
              (λ h.
                All (Resolves req.evidence ids) h.supporting
                × All (Resolves req.evidence ids) h.contradicting)
              (λ h k. (all_resolve h.supporting k.0, all_resolve h.contradicting k.1))
              (enforce_citations raw valid).0.hypotheses grounded.1;
      }

  run_provider_total :
      (provider : Option (AiProvider S)) (req : AnalysisRequest) (s : S)
      → (rec : AnalysisRecord) × (s' : S) × (run_provider provider req s ≡ (ok rec, s'))
        × IsPublishable req rec
  unfolding run_provider
  run_provider_total none req s = (
    skipped_record,
    s,
    refl,
    unfold skipped_record in
        record { verdict = inr (inr refl); observations = tt; hypotheses = tt },
  )
  run_provider_total (some p) req s = go (p.analyze req s) refl
    where
      go :
          (r : Result AnalysisResult × S)
          → p.analyze req s ≡ r
          → (rec : AnalysisRecord) × (s' : S) × (run_provider (some p) req s ≡ (ok rec, s'))
            × IsPublishable req rec
      go (ok raw, s') e = (ok_record p req raw, s', rw e, ok_record-IsPublishable p req raw)
      go (err x, s') e = (
        failed_record p x,
        s',
        rw e,
        unfold failed_record in
            record { verdict = inr (inr refl); observations = tt; hypotheses = tt },
      )

  -- Once the request is loaded, the service always hands one record to the repository and returns
  -- what the repository returns: with no provider, with one that fails, and with one that answers
  -- anything at all. The record has a legal verdict, and each citation in it resolves to an id of
  -- the request's evidence.
  pub analyze_saves :
      (provider : Option (AiProvider S)) (repo : AnalysisRepository S) (incident_id : ℕ) (s : S)
      {req : AnalysisRequest} {s1 : S}
      → repo.load_analysis_request incident_id s ≡ (ok req, s1)
      → (rec : AnalysisRecord) × (s2 : S) × (analyze provider repo incident_id s
          ≡ repo.save_analysis incident_id rec s2)
        × IsPublishable req rec
  unfolding analyze
  analyze_saves provider repo incident_id s {req} {s1} loaded =
      let (rec, s2, e, p) = run_provider_total provider req s1 in (rec, s2, rw loaded (rw e), p)
