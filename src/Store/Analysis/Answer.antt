-- ===== src/Store/Analysis/Answer.antt =====
-- What `insertObservations`, `insertHypotheses` and the provenance leave alone.
use valaf.Common.{ℕ, suc, String, Option, none, some, List, [], ◌∷◌, arith}
use valaf.Common.Maps.{Map, find}
use valaf.Common.Effect.{◌>>◌}
use valaf.Core.Analyze.{
  Observation, Hypothesis, SimilarIncident, AnalysisRecord, AnalysisStatus, analyzed, failed,
  skipped,
}
use valaf.Store.Tables.{AnalysisRow, IncidentRow, Tables}
use valaf.Store.Sql.{Sql, exec}
use valaf.Store.Sql.Rules.{Gives, Gives-bind, Gives-pure, Gives-query, Holds}
use valaf.Store.Analysis.{
  insert_citation, cite, insert_citations, insert_observation, insert_observations, insert_link,
  link, link_evidence, insert_hypothesis, insert_hypotheses, insert_similar, insert_similars,
  insert_answer,
}

-- A property of the tables `analyses` and `incidents`, which the statements here do not write.
module _ (P : List AnalysisRow → List IncidentRow → Type 0) where
  abbrev Inv : Tables → Type 0
  Inv t = P t.analyses t.incidents

  unfoldable pub Stays : {A : Type 0} → Sql A → Type 0
  Stays m = Gives Inv m (λ _. Inv)

  Stays-cite : (obs_id : ℕ) (id : Option ℕ) → Stays (cite obs_id id)
  unfolding cite Stays
  Stays-cite obs_id none = Gives-pure tt (λ t p. p)
  Stays-cite obs_id (some id) = Gives-query (insert_citation obs_id id) (λ t p. go t p)
    where
      go : (t : Tables) → Inv t → Holds (λ _. Inv) (insert_citation obs_id id t)
      go t p = unfold insert_citation in ground arith

  Stays-citations :
      (m : Map ℕ) (obs_id : ℕ) (refs : List String) → Stays (insert_citations m obs_id refs)
  unfolding insert_citations Stays
  Stays-citations m obs_id [] = Gives-pure tt (λ t p. p)
  Stays-citations m obs_id (r ∷ rest) =
      Gives-bind (cite obs_id (find m r)) (λ _. insert_citations m obs_id rest) (λ _. Inv)
        (Stays-cite obs_id (find m r)) (λ _. Stays-citations m obs_id rest)

  Stays-observations :
      (m : Map ℕ) (analysis_id ordinal : ℕ) (os : List Observation)
      → Stays (insert_observations m analysis_id ordinal os)
  unfolding insert_observations Stays
  Stays-observations m analysis_id ordinal [] = Gives-pure tt (λ t p. p)
  Stays-observations m analysis_id ordinal (o ∷ rest) =
      Gives-bind (exec (insert_observation analysis_id ordinal o))
        (λ id.
          insert_citations m id o.cites >> insert_observations m analysis_id (suc ordinal) rest)
        (λ _. Inv)
        (Gives-query (insert_observation analysis_id ordinal o)
          (λ t p. unfold insert_observation in p))
        (λ id.
          Gives-bind (insert_citations m id o.cites)
            (λ _. insert_observations m analysis_id (suc ordinal) rest) (λ _. Inv)
            (Stays-citations m id o.cites)
            (λ _. Stays-observations m analysis_id (suc ordinal) rest))

  Stays-link : (hyp_id : ℕ) (relation : String) (id : Option ℕ) → Stays (link hyp_id relation id)
  unfolding link Stays
  Stays-link hyp_id relation none = Gives-pure tt (λ t p. p)
  Stays-link hyp_id relation (some id) =
      Gives-query (insert_link hyp_id id relation) (λ t p. go t p)
    where
      go : (t : Tables) → Inv t → Holds (λ _. Inv) (insert_link hyp_id id relation t)
      go t p = unfold insert_link in ground arith

  Stays-links :
      (m : Map ℕ) (hyp_id : ℕ) (relation : String) (refs : List String)
      → Stays (link_evidence m hyp_id relation refs)
  unfolding link_evidence Stays
  Stays-links m hyp_id relation [] = Gives-pure tt (λ t p. p)
  Stays-links m hyp_id relation (r ∷ rest) =
      Gives-bind (link hyp_id relation (find m r)) (λ _. link_evidence m hyp_id relation rest)
        (λ _. Inv) (Stays-link hyp_id relation (find m r)) (λ _. Stays-links m hyp_id relation rest)

  Stays-hypotheses :
      (m : Map ℕ) (analysis_id : ℕ) (hs : List Hypothesis)
      → Stays (insert_hypotheses m analysis_id hs)
  unfolding insert_hypotheses Stays
  Stays-hypotheses m analysis_id [] = Gives-pure tt (λ t p. p)
  Stays-hypotheses m analysis_id (h ∷ rest) =
      Gives-bind (exec (insert_hypothesis analysis_id h))
        (λ id.
          link_evidence m id "supporting" h.supporting
          >> (link_evidence m id "contradicting" h.contradicting
              >> insert_hypotheses m analysis_id rest))
        (λ _. Inv)
        (Gives-query (insert_hypothesis analysis_id h) (λ t p. unfold insert_hypothesis in p))
        (λ id.
          Gives-bind (link_evidence m id "supporting" h.supporting)
            (λ _.
              link_evidence m id "contradicting" h.contradicting
              >> insert_hypotheses m analysis_id rest)
            (λ _. Inv) (Stays-links m id "supporting" h.supporting)
            (λ _.
              Gives-bind (link_evidence m id "contradicting" h.contradicting)
                (λ _. insert_hypotheses m analysis_id rest) (λ _. Inv)
                (Stays-links m id "contradicting" h.contradicting)
                (λ _. Stays-hypotheses m analysis_id rest)))

  Stays-similars :
      (analysis_id : ℕ) (ss : List SimilarIncident) → Stays (insert_similars analysis_id ss)
  unfolding insert_similars Stays
  Stays-similars analysis_id [] = Gives-pure tt (λ t p. p)
  Stays-similars analysis_id (s ∷ rest) =
      Gives-bind (exec (insert_similar analysis_id s)) (λ _. insert_similars analysis_id rest)
        (λ _. Inv) (Gives-query (insert_similar analysis_id s) (λ t p. go t p))
        (λ _. Stays-similars analysis_id rest)
    where
      go : (t : Tables) → Inv t → Holds (λ _. Inv) (insert_similar analysis_id s t)
      go t p = unfold insert_similar in ground arith

  pub Stays-answer :
      (analysis_id : ℕ) (rec : AnalysisRecord) (st : AnalysisStatus)
      → Stays (insert_answer analysis_id rec st)
  unfolding insert_answer Stays
  Stays-answer analysis_id rec failed = Gives-pure tt (λ t p. p)
  Stays-answer analysis_id rec skipped = Gives-pure tt (λ t p. p)
  Stays-answer analysis_id rec analyzed =
      Gives-bind (insert_observations rec.ref_to_id analysis_id 0 rec.result.observations)
        (λ _.
          insert_hypotheses rec.ref_to_id analysis_id rec.result.hypotheses
          >> insert_similars analysis_id rec.similar)
        (λ _. Inv) (Stays-observations rec.ref_to_id analysis_id 0 rec.result.observations)
        (λ _.
          Gives-bind (insert_hypotheses rec.ref_to_id analysis_id rec.result.hypotheses)
            (λ _. insert_similars analysis_id rec.similar) (λ _. Inv)
            (Stays-hypotheses rec.ref_to_id analysis_id rec.result.hypotheses)
            (λ _. Stays-similars analysis_id rec.similar))
