-- ===== src/Store/Review/Flagged.antt =====
-- Flagging evidence keeps the capture and leaves an audit record.
use mathlib.Core.Path.{subst}
use valaf.Common.{
  ℕ, ◌≡◌, ◌≢◌, refl, sym, String, false, Bool-cases, ◌⊎◌, inl, inr, Option, none, some, List, [],
  ◌∷◌, ◌++◌, eqb, eqb_iff, select, update, first, In, In-select, arith,
}
use valaf.Common.Effect.{Error, Result, ok, err, pure, ◌>>=◌, ◌>>◌}
use valaf.Core.Alert.{Time}
use valaf.Store.Tables.{EvidenceRow, AuditRow, Tables}
use valaf.Store.Sql.{Conn, exec, write}
use valaf.Store.Sql.Rules.{
  transaction-err, Gives, Gives-bind, Gives-pure, Gives-query, Gives-transaction, Holds,
}
use valaf.Store.Review.{
  record_audit, flag, find_evidence, flag_found, flag_body, update_flag, flag_evidence,
}

-- the raw capture
abbrev pub SameCapture : EvidenceRow → EvidenceRow → Type 0
SameCapture i j =
    (j.id ≡ i.id)
    × (j.incident_id ≡ i.incident_id)
    × (j.collector ≡ i.collector)
    × (j.kind ≡ i.kind)
    × (j.request ≡ i.request)
    × (j.result ≡ i.result)
    × (j.status ≡ i.status)
    × (j.error ≡ i.error)
    × (j.captured_at ≡ i.captured_at)

-- Row by row, the capture is the same; the flagged item is marked with comment, actor and time, and
-- any other row is as before.
abbrev pub AllFlagged : Time → ℕ → String → ℕ → List EvidenceRow → List EvidenceRow → Type 0
AllFlagged now id comment actor_id [] [] = Unit
AllFlagged now id comment actor_id (i ∷ is) (j ∷ js) =
    (SameCapture i j
      × (((i.id ≢ id) × (j ≡ i))
          ⊎ ((i.id ≡ id)
              × (j.is_valid ≡ false)
              × (j.invalid_comment ≡ some comment)
              × (j.flagged_by ≡ some actor_id)
              × (j.flagged_at ≡ some now))))
    × AllFlagged now id comment actor_id is js
AllFlagged now id comment actor_id [] (j ∷ js) = ⊥
AllFlagged now id comment actor_id (i ∷ is) [] = ⊥

update-AllFlagged :
    (now : Time) (id : ℕ) (comment : String) (actor_id : ℕ) (rows : List EvidenceRow)
    → AllFlagged now id comment actor_id rows
        (update (λ (r : EvidenceRow). eqb r.id id) (flag now comment actor_id) rows)
unfolding flag
update-AllFlagged now id comment actor_id [] = tt
update-AllFlagged now id comment actor_id (i ∷ rest) =
    let tail = update-AllFlagged now id comment actor_id rest in
    elim (Bool-cases (eqb i.id id)) [
      | inl e ↦ rw e (
        (
          (refl, refl, refl, refl, refl, refl, refl, refl, refl),
          inr ((eqb_iff i.id id).0 e, refl, refl, refl, refl),
        ),
        tail,
      )
      | inr e ↦ rw e (
        ((refl, refl, refl, refl, refl, refl, refl, refl, refl), inl (ground (arith, e), refl)),
        tail,
      )
    ]

In-first : (e : EvidenceRow) (rows : List EvidenceRow) → first rows ≡ some e → In e rows
In-first e [] h = cc
In-first e (r ∷ rest) h = inl (ground (arith, h))

module _ (now : Time) (id : ℕ) (comment : String) (actor_id : ℕ) (t0 : Tables) where
  abbrev audit_row : AuditRow
  audit_row = record {
    actor_id = actor_id;
    action = "evidence_flagged";
    entity_type = "evidence_item";
    entity_id = id;
    details = ("comment", comment) ∷ [];
    at = now;
  }

  -- the tables after the item was flagged
  abbrev pub Flagged : ℕ → Tables → Type 0
  Flagged incident_id t =
      ((e : EvidenceRow) × In e t0.evidence_items × (e.id ≡ id) × (e.incident_id ≡ incident_id))
      × AllFlagged now id comment actor_id t0.evidence_items t.evidence_items
      × (t.audit_log ≡ t0.audit_log ++ audit_row ∷ [])
      × (t.analyses ≡ t0.analyses)
      × (t.hypotheses ≡ t0.hypotheses)
      × (t.incidents ≡ t0.incidents)

  abbrev Marked : ℕ → Tables → Type 0
  Marked incident_id t =
      ((e : EvidenceRow) × In e t0.evidence_items × (e.id ≡ id) × (e.incident_id ≡ incident_id))
      × (t ≡ record t0 {
        evidence_items =
            update (λ (r : EvidenceRow). eqb r.id id) (flag now comment actor_id) t0.evidence_items;
      })

  first_selected :
      (rows : List EvidenceRow) (e : EvidenceRow)
      → first (select (λ (r : EvidenceRow). eqb r.id id) rows) ≡ some e
      → In e rows × (e.id ≡ id)
  first_selected rows e h =
      let (i, t) =
        In-select (λ (r : EvidenceRow). eqb r.id id) e rows
          (In-first e (select (λ (r : EvidenceRow). eqb r.id id) rows) h) in
      (i, (eqb_iff e.id id).0 t)

  flag_found-Marked :
      (o : Option EvidenceRow)
      → find_evidence id t0 ≡ o
      → Holds Marked (flag_found now id comment actor_id o t0)
  unfolding flag_found
  flag_found-Marked none found = tt
  flag_found-Marked (some e) found =
      let (i, same) = first_selected t0.evidence_items e found in ((e, i, same, refl), refl)

  update_flag-Marked : (t : Tables) → t ≡ t0 → Holds Marked (update_flag now id comment actor_id t)
  unfolding update_flag
  update_flag-Marked t same =
      subst (λ (x : Tables). Holds Marked (update_flag now id comment actor_id x)) (sym same)
        (flag_found-Marked (find_evidence id t0) refl)

  abbrev write_audit : Tables → Tables
  write_audit t = record t { audit_log = t.audit_log ++ audit_row ∷ [] }

  flag_body-Flagged :
      Gives
        (λ t. t ≡ t0)
        (exec (update_flag now id comment actor_id) >>= λ incident_id.
          exec (write write_audit) >> pure incident_id)
        Flagged
  flag_body-Flagged =
      Gives-bind (exec (update_flag now id comment actor_id))
        (λ incident_id. exec (write write_audit) >> pure incident_id) Marked
        (Gives-query (update_flag now id comment actor_id) update_flag-Marked)
        (λ incident_id.
          Gives-bind (exec (write write_audit)) (λ _. pure incident_id) (λ _. Flagged incident_id)
            (Gives-query (write write_audit) (λ t (origin, same).
              let (a, b, d, e, f) = audited incident_id t same in (origin, a, b, d, e, f)))
            (λ _. Gives-pure incident_id (λ t p. p)))
    where
      audited :
          (incident_id : ℕ) (t : Tables)
          → t ≡ record t0 {
            evidence_items =
                update
                  (λ (r : EvidenceRow). eqb r.id id)
                  (flag now comment actor_id)
                  t0.evidence_items;
          }
          → AllFlagged now id comment actor_id t0.evidence_items t.evidence_items
            × (t.audit_log ++ audit_row ∷ [] ≡ t0.audit_log ++ audit_row ∷ [])
            × (t.analyses ≡ t0.analyses)
            × (t.hypotheses ≡ t0.hypotheses)
            × (t.incidents ≡ t0.incidents)
      audited incident_id t same = (
        rw same (update-AllFlagged now id comment actor_id t0.evidence_items),
        rw same refl,
        rw same refl,
        rw same refl,
        rw same refl,
      )

-- Flagging an item of evidence is all or nothing. If it returns an error, no table has changed. If
-- it succeeds, the item exists and its incident is returned; the item is marked as invalid with the
-- comment, the actor and the time, and what was captured stays, as do the other items, the incidents,
-- the analyses and the hypotheses; and the audit log has exactly one more record, of this action.
pub flag_evidence_audited :
    (now : Time) (id : ℕ) (comment : String) (actor_id : ℕ) (c : Conn) (r : Result ℕ) (c' : Conn)
    → flag_evidence now id comment actor_id c ≡ (r, c')
    → ((e : Error) × (r ≡ err e) × (c'.tables ≡ c.tables))
      ⊎ ((incident_id : ℕ) × (r ≡ ok incident_id)
          × Flagged now id comment actor_id c.tables incident_id c'.tables)
unfolding flag_evidence flag_body record_audit
flag_evidence_audited now id comment actor_id c (err e) c' h =
    inl (e, refl, transaction-err (flag_body now id comment actor_id) c e c' h)
flag_evidence_audited now id comment actor_id c (ok incident_id) c' h = inr (
  incident_id,
  refl,
  (Gives-transaction (flag_body now id comment actor_id)
        (flag_body-Flagged now id comment actor_id c.tables)).at
      c incident_id c' refl h,
)
