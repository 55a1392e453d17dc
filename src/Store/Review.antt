-- ===== src/Store/Review.antt =====
-- internal/store/review.go: the engineer's actions, each with its audit record in one transaction.
pub mod Flagged
pub mod Resolved
use valaf.Common.{
  ℕ, String, Bool, true, false, ◌&&◌, not, Option, none, some, List, [], ◌∷◌, ◌++◌, eqb, select,
  update, first, any, ◌==◌, if◌then◌else◌,
}
use valaf.Common.Maps.{Map}
use valaf.Common.Effect.{Error, Result, ok, err, constraint, no_rows, Eff, pure, ◌>>=◌, ◌>>◌}
use valaf.Core.Alert.{Time}
use valaf.Store.Tables.{
  IncidentStatus, opened, analyzing, published, resolved, false_positive, deleted, IncidentRow,
  EvidenceRow, AnalysisRow, HypothesisRow, ResolutionRow, AuditRow, Tables,
}
use valaf.Store.Sql.{Sql, Query, exec, transaction, write, null_if_empty}
use valaf.Store.Jobs.{incident_exists}

-- The actor of every review action is a user, so the `nullIfEmpty` of its id is that id.
unfoldable pub record_audit : Time → ℕ → String → String → ℕ → Map String → Sql Unit
record_audit now actor_id action entity_type entity_id details = exec (
    write (λ t. record t {
      audit_log =
          t.audit_log
          ++ record {
            actor_id = actor_id;
            action = action;
            entity_type = entity_type;
            entity_id = entity_id;
            details = details;
            at = now;
          }
            ∷ [];
    }))

abbrev pub find_hypothesis : ℕ → Tables → Option HypothesisRow
find_hypothesis id t = first (select (λ (h : HypothesisRow). eqb h.id id) t.hypotheses)

abbrev pub find_analysis : ℕ → Tables → Option AnalysisRow
find_analysis id t = first (select (λ (a : AnalysisRow). eqb a.id id) t.analyses)

abbrev pub incident_of : Option AnalysisRow → Tables → Result (ℕ × Tables)
incident_of none t = err no_rows
incident_of (some a) t = ok (a.incident_id, t)

-- the UPDATE of a hypothesis, joined with its analysis
unfoldable pub update_verdict : Time → ℕ → String → String → ℕ → Query ℕ
update_verdict now hypothesis_id verdict note actor_id t = elim (find_hypothesis hypothesis_id t) [
  | none ↦ err no_rows
  | some h ↦ incident_of (find_analysis h.analysis_id t) (record t {
    hypotheses =
        update (λ (r : HypothesisRow). eqb r.id hypothesis_id)
          (λ r. record r {
            verdict = verdict;
            verdict_note = null_if_empty note;
            verdict_by = some actor_id;
            verdict_at = some now;
          })
          t.hypotheses;
  })
]

unfoldable pub set_hypothesis_verdict : Time → ℕ → String → String → ℕ → Sql ℕ
unfolding update_verdict record_audit
set_hypothesis_verdict now hypothesis_id verdict note actor_id = transaction do
  incident_id ← exec (update_verdict now hypothesis_id verdict note actor_id)
  record_audit now actor_id "hypothesis_verdict" "hypothesis" hypothesis_id
      (("verdict", verdict) ∷ ("note", note) ∷ [])
  pure incident_id

-- the columns that the UPDATE sets: the raw capture stays
unfoldable pub flag : Time → String → ℕ → EvidenceRow → EvidenceRow
flag now comment actor_id e = record e {
  is_valid = false;
  invalid_comment = some comment;
  flagged_by = some actor_id;
  flagged_at = some now;
}

abbrev pub find_evidence : ℕ → Tables → Option EvidenceRow
find_evidence id t = first (select (λ (e : EvidenceRow). eqb e.id id) t.evidence_items)

unfoldable pub flag_found : Time → ℕ → String → ℕ → Option EvidenceRow → Query ℕ
unfolding flag
flag_found now evidence_id comment actor_id none t = err no_rows
flag_found now evidence_id comment actor_id (some e) t = ok (
  e.incident_id,
  record t {
    evidence_items =
        update (λ (r : EvidenceRow). eqb r.id evidence_id) (flag now comment actor_id)
          t.evidence_items;
  },
)

unfoldable pub update_flag : Time → ℕ → String → ℕ → Query ℕ
unfolding flag_found
update_flag now evidence_id comment actor_id t =
    flag_found now evidence_id comment actor_id (find_evidence evidence_id t) t

unfoldable pub flag_body : Time → ℕ → String → ℕ → Sql ℕ
unfolding update_flag record_audit
flag_body now evidence_id comment actor_id = do
  incident_id ← exec (update_flag now evidence_id comment actor_id)
  record_audit now actor_id "evidence_flagged" "evidence_item" evidence_id
      (("comment", comment) ∷ [])
  pure incident_id

unfoldable pub flag_evidence : Time → ℕ → String → ℕ → Sql ℕ
unfolding flag_body
flag_evidence now evidence_id comment actor_id =
    transaction (flag_body now evidence_id comment actor_id)

pub record ResolutionInput : Type 0 where
  pub root_cause : String
  pub actions_taken : String
  pub ultimate_solution : String
  pub notes : String

abbrev pub resolution_row : Time → ℕ → ResolutionInput → ℕ → ResolutionRow
resolution_row now incident_id input actor_id = record {
  incident_id = incident_id;
  root_cause = input.root_cause;
  actions_taken = null_if_empty input.actions_taken;
  ultimate_solution = null_if_empty input.ultimate_solution;
  notes = null_if_empty input.notes;
  resolved_by = actor_id;
  resolved_at = now;
}

abbrev pub is_resolution_of : ℕ → ResolutionRow → Bool
is_resolution_of incident_id r = eqb r.incident_id incident_id

-- INSERT ... ON CONFLICT (incident_id) DO UPDATE
unfoldable pub upsert_resolution :
    Time → ℕ → ResolutionInput → ℕ → List ResolutionRow → List ResolutionRow
upsert_resolution now incident_id input actor_id rows =
    let row = resolution_row now incident_id input actor_id in
    if any (is_resolution_of incident_id) rows
    then update (is_resolution_of incident_id) (λ _. row) rows
    else rows ++ row ∷ []

unfoldable pub write_resolution : Time → ℕ → ResolutionInput → ℕ → Query Unit
unfolding upsert_resolution
write_resolution now incident_id input actor_id t =
    if incident_exists incident_id t
    then ok (
      tt,
      record t { resolutions = upsert_resolution now incident_id input actor_id t.resolutions },
    )
    else err constraint

abbrev pub is_deleted : IncidentStatus → Bool
is_deleted deleted = true
is_deleted _ = false

unfoldable pub mark_resolved : Time → ℕ → List IncidentRow → List IncidentRow
mark_resolved now incident_id =
    update (λ i. eqb i.id incident_id && not (is_deleted i.status))
      (λ i. record i { status = resolved; resolved_at = some now })

unfoldable pub resolution_body : Time → ℕ → ResolutionInput → ℕ → Sql Unit
unfolding write_resolution mark_resolved record_audit
resolution_body now incident_id input actor_id = do
  exec (write_resolution now incident_id input actor_id)
  exec (write (λ t. record t { incidents = mark_resolved now incident_id t.incidents }))
  record_audit now actor_id "resolution_saved" "incident" incident_id []

unfoldable pub save_resolution : Time → ℕ → ResolutionInput → ℕ → Sql Unit
unfolding resolution_body
save_resolution now incident_id input actor_id =
    transaction (resolution_body now incident_id input actor_id)
