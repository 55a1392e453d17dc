-- ===== src/Store/Analysis/Publish.antt =====
-- What the publication of an analysis does to the incidents.
use valaf.Common.{
  ℕ, ◌≡◌, ◌≢◌, refl, ap, String, true, false, ◌&&◌, Bool-cases, ◌⊎◌, inl, inr, Option, List, [],
  ◌∷◌, eqb, eqb_iff, arith,
}
use valaf.Common.Effect.{ok, ◌>>=◌, ◌>>◌}
use valaf.Core.Alert.{Time}
use valaf.Core.Analyze.{AnalysisRecord}
use valaf.Store.Tables.{published, IncidentRow, Tables}
use valaf.Store.Sql.{Conn, exec, write, null_if_empty}
use valaf.Store.Sql.Rules.{Gives, Gives-bind, Gives-query, Gives-transaction, Holds}
use valaf.Store.Jobs.{incident_exists}
use valaf.Store.Analysis.{
  clear_current, is_storable, insert_analysis, insert_answer, can_publish, or_now, publish,
  save_body, save_analysis,
}
use valaf.Store.Analysis.Answer.{Stays, Stays-answer}

-- Row by row: another incident, and one that is resolved, a false positive or deleted, is as before;
-- this one, otherwise, is published with the verdict, at the time of its first publication.
abbrev pub Published : Time → ℕ → Option String → IncidentRow → IncidentRow → Type 0
Published now incident_id verdict i j =
    ((j ≡ i) × ((i.id ≢ incident_id) ⊎ (can_publish i.status ≡ false)))
    ⊎ ((i.id ≡ incident_id)
        × (can_publish i.status ≡ true)
        × (j.status ≡ published)
        × (j.published_at ≡ or_now i.published_at now)
        × (j.triage_verdict ≡ verdict)
        × (j.id ≡ i.id)
        × (j.opened_at ≡ i.opened_at))

abbrev pub AllPublished : Time → ℕ → Option String → List IncidentRow → List IncidentRow → Type 0
AllPublished now incident_id verdict [] [] = Unit
AllPublished now incident_id verdict (i ∷ is) (j ∷ js) =
    Published now incident_id verdict i j × AllPublished now incident_id verdict is js
AllPublished now incident_id verdict [] (j ∷ js) = ⊥
AllPublished now incident_id verdict (i ∷ is) [] = ⊥

publish-AllPublished :
    (now : Time) (incident_id : ℕ) (verdict : Option String) (rows : List IncidentRow)
    → AllPublished now incident_id verdict rows (publish now incident_id verdict rows)
unfolding publish
publish-AllPublished now incident_id verdict [] = tt
publish-AllPublished now incident_id verdict (i ∷ rest) =
    let tail = publish-AllPublished now incident_id verdict rest in
    elim (Bool-cases (eqb i.id incident_id)) [
      | inr e ↦ rw e (inl (refl, inl (ground (arith, e))), tail)
      | inl e ↦ elim (Bool-cases (can_publish i.status)) [
        | inl p ↦
            rw e (
              rw p (inr ((eqb_iff i.id incident_id).0 e, refl, refl, refl, refl, refl, refl), tail))
        | inr p ↦ rw e (rw p (inl (refl, inr refl), tail))
      ]
    ]

module _ (now : Time) (incident_id : ℕ) (rec : AnalysisRecord) (t0 : Tables) where
  abbrev Untouched : Tables → Type 0
  Untouched t = t.incidents ≡ t0.incidents

  abbrev set_published : Tables → Tables
  set_published t = record t {
    incidents = publish now incident_id (null_if_empty rec.triage_verdict) t.incidents;
  }

  abbrev Done : Tables → Type 0
  Done t = t.incidents ≡ publish now incident_id (null_if_empty rec.triage_verdict) t0.incidents

  insert_keeps :
      (t : Tables) → Untouched t → Holds (λ _. Untouched) (insert_analysis now incident_id rec t)
  insert_keeps t p =
      unfold insert_analysis in
      elim (Bool-cases (incident_exists incident_id t && is_storable rec)) [
        | inl e ↦ rw e p
        | inr e ↦ rw e tt
      ]

  save_body-Done : Gives Untouched (save_body now incident_id rec) (λ _. Done)
  unfolding save_body
  save_body-Done =
      Gives-bind (exec (write (λ t. record t { analyses = clear_current incident_id t.analyses })))
        (λ _. exec (insert_analysis now incident_id rec) >>= λ id.
          insert_answer id rec rec.status >> exec (write set_published))
        (λ _. Untouched)
        (Gives-query (write (λ t. record t { analyses = clear_current incident_id t.analyses }))
          (λ t p. p))
        (λ _.
          Gives-bind (exec (insert_analysis now incident_id rec))
            (λ id. insert_answer id rec rec.status >> exec (write set_published)) (λ _. Untouched)
            (Gives-query (insert_analysis now incident_id rec) insert_keeps)
            (λ id.
              Gives-bind (insert_answer id rec rec.status) (λ _. exec (write set_published))
                (λ _. Untouched)
                (unfold Stays in Stays-answer (λ _ rows. rows ≡ t0.incidents) id rec rec.status)
                (λ _.
                  Gives-query (write set_published)
                    (λ t p. ap (publish now incident_id (null_if_empty rec.triage_verdict)) p))))

-- When the analysis of an incident is saved, only that incident changes, and only if it is not
-- resolved, a false positive or deleted: a late analysis does not open what an engineer has closed.
-- Otherwise it is published with the analysis's verdict, and the time of its first publication is
-- kept.
pub save_analysis_publishes :
    (now : Time) (incident_id : ℕ) (rec : AnalysisRecord) (c c' : Conn)
    → save_analysis now incident_id rec c ≡ (ok tt, c')
    → AllPublished now incident_id
        (null_if_empty rec.triage_verdict)
        c.tables.incidents
        c'.tables.incidents
unfolding save_analysis
save_analysis_publishes now incident_id rec c c' h =
    let done =
      (Gives-transaction (save_body now incident_id rec)
          (save_body-Done now incident_id rec c.tables)).at
        c tt c' refl h in
    rw done
      (publish-AllPublished now incident_id (null_if_empty rec.triage_verdict) c.tables.incidents)
