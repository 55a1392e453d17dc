-- ===== src/Store/Analysis/Current.antt =====
-- An incident has one current analysis.
use valaf.Common.{
  ℕ, ◌+◌, ◌≤◌, ◌≡◌, refl, sym, Bool, ◌&&◌, Bool-cases, ◌⊎◌, inl, inr, List, [], ◌∷◌, ◌++◌, eqb,
  eqb_iff, eqb_refl, count, count-append, arith, if◌then◌else◌,
}
use mathlib.Core.Path.{subst}
use valaf.Common.Effect.{Error, Result, ok, err, ◌>>=◌, ◌>>◌}
use valaf.Core.Alert.{Time}
use valaf.Core.Analyze.{AnalysisRecord}
use valaf.Store.Tables.{AnalysisRow, Tables}
use valaf.Store.Sql.{Conn, Sql, exec, write, null_if_empty}
use valaf.Store.Sql.Rules.{
  transaction-err, Gives, Gives-bind, Gives-query, Gives-transaction, Holds,
}
use valaf.Store.Jobs.{incident_exists}
use valaf.Store.Analysis.Answer.{Stays, Stays-answer}
use valaf.Store.Analysis.{
  clear_current, new_analysis, is_storable, insert_analysis, insert_answer, publish, save_body,
  save_analysis,
}

abbrev pub is_current_of : ℕ → AnalysisRow → Bool
is_current_of incident_id a = eqb a.incident_id incident_id && a.is_current

-- No incident has two current analyses.
abbrev pub AtMostOne : List AnalysisRow → Type 0
AtMostOne rows = (i : ℕ) → count (is_current_of i) rows ≤ 1

clear_current_none :
    (i : ℕ) (rows : List AnalysisRow) → count (is_current_of i) (clear_current i rows) ≡ 0
unfolding clear_current
clear_current_none i [] = refl
clear_current_none i (a ∷ rest) = elim (Bool-cases (is_current_of i a)) [
  | inl e ↦ rw e (ground (arith, clear_current_none i rest))
  | inr e ↦ rw e (rw e (omega (arith, clear_current_none i rest)))
]

clear_current_le :
    (id i : ℕ) (rows : List AnalysisRow)
    → count (is_current_of i) (clear_current id rows) ≤ count (is_current_of i) rows
unfolding clear_current
clear_current_le id i [] = omega arith
clear_current_le id i (a ∷ rest) = elim (Bool-cases (is_current_of id a)) [
  | inl e ↦ rw e (ground (arith, clear_current_le id i rest))
  | inr e ↦ rw e (omega (arith, clear_current_le id i rest))
]

-- `incident_id` has `n` current analyses, and every incident at most one
abbrev Current : ℕ → ℕ → Tables → Type 0
Current incident_id n t = AtMostOne t.analyses × (count (is_current_of incident_id) t.analyses ≡ n)

module _ (now : Time) (incident_id : ℕ) (rec : AnalysisRecord) where
  count_new :
      (id i : ℕ)
      → count (is_current_of i) (new_analysis now id incident_id rec ∷ [])
        ≡ (if eqb incident_id i then 1 else 0)
  count_new id i = elim (Bool-cases (eqb incident_id i)) [ inl e ↦ rw e refl | inr e ↦ rw e refl ]

  append_current :
      (id : ℕ) (rows : List AnalysisRow)
      → AtMostOne rows
      → count (is_current_of incident_id) rows ≡ 0
      → AtMostOne (rows ++ new_analysis now id incident_id rec ∷ [])
        × (count (is_current_of incident_id) (rows ++ new_analysis now id incident_id rec ∷ []) ≡ 1)
  append_current id rows h z = (
    λ i. rw count-append (rw (count_new id i) (bounded i (h i))),
    rw count-append (rw (count_new id incident_id) (rw eqb_refl (omega (arith, z)))),
  )
    where
      bounded :
          (i : ℕ)
          → count (is_current_of i) rows ≤ 1
          → count (is_current_of i) rows + (if eqb incident_id i then 1 else 0) ≤ 1
      bounded i b = elim (Bool-cases (eqb incident_id i)) [
        | inl e ↦ rw e (
            subst (λ j. count (is_current_of j) rows + 1 ≤ 1) ((eqb_iff incident_id i).0 e)
              (omega (arith, z)))
        | inr e ↦ rw e (omega (arith, b))
      ]

module _ (now : Time) (incident_id : ℕ) (rec : AnalysisRecord) where
  abbrev set_published : Tables → Tables
  set_published t = record t {
    incidents = publish now incident_id (null_if_empty rec.triage_verdict) t.incidents;
  }

  abbrev published : Sql Unit
  published = exec (write set_published)

  insert-Current :
      Gives
        (Current incident_id 0)
        (exec (insert_analysis now incident_id rec))
        (λ _. Current incident_id 1)
  insert-Current = Gives-query (insert_analysis now incident_id rec) (λ t p. go t p)
    where
      go :
          (t : Tables)
          → Current incident_id 0 t
          → Holds (λ _. Current incident_id 1) (insert_analysis now incident_id rec t)
      go t (most, none_left) =
          unfold insert_analysis in
          elim (Bool-cases (incident_exists incident_id t && is_storable rec)) [
            | inl e ↦ rw e (append_current now incident_id rec t.next_id t.analyses most none_left)
            | inr e ↦ rw e tt
          ]

  save_body-Current :
      Gives (λ t. AtMostOne t.analyses) (save_body now incident_id rec) (λ _. Current incident_id 1)
  unfolding save_body
  save_body-Current =
      Gives-bind (exec (write (λ t. record t { analyses = clear_current incident_id t.analyses })))
        (λ _. exec (insert_analysis now incident_id rec) >>= λ id.
          insert_answer id rec rec.status >> published)
        (λ _. Current incident_id 0)
        (Gives-query (write (λ t. record t { analyses = clear_current incident_id t.analyses }))
          (λ t most. (
            λ i. omega (arith, most i, clear_current_le incident_id i t.analyses),
            clear_current_none incident_id t.analyses,
          )))
        (λ _.
          Gives-bind (exec (insert_analysis now incident_id rec))
            (λ id. insert_answer id rec rec.status >> published) (λ _. Current incident_id 1)
            insert-Current
            (λ id.
              Gives-bind (insert_answer id rec rec.status) (λ _. published)
                (λ _. Current incident_id 1)
                (unfold Stays in
                  Stays-answer
                    (λ rows _. AtMostOne rows × (count (is_current_of incident_id) rows ≡ 1)) id rec
                    rec.status)
                (λ _. Gives-query (write set_published) (λ t p. p))))

-- If no incident has two current analyses, then saving an analysis keeps it so, whatever its
-- outcome. If it succeeds, the incident has exactly one current analysis, also where the provider
-- failed or was skipped. If it returns an error, no table has changed.
pub save_analysis_current :
    (now : Time) (incident_id : ℕ) (rec : AnalysisRecord) (c : Conn) (r : Result Unit) (c' : Conn)
    → AtMostOne c.tables.analyses
    → save_analysis now incident_id rec c ≡ (r, c')
    → AtMostOne c'.tables.analyses
      × (((e : Error) × (r ≡ err e) × (c'.tables ≡ c.tables))
          ⊎ ((r ≡ ok tt) × (count (is_current_of incident_id) c'.tables.analyses ≡ 1)))
unfolding save_analysis
save_analysis_current now incident_id rec c (err e) c' most h =
    let same = transaction-err (save_body now incident_id rec) c e c' h in
    (subst (λ (t : Tables). AtMostOne t.analyses) (sym same) most, inl (e, refl, same))
save_analysis_current now incident_id rec c (ok tt) c' most h =
    let (kept, one) =
      (Gives-transaction (save_body now incident_id rec) (save_body-Current now incident_id rec)).at
        c tt c' most h in
    (kept, inr (refl, one))
