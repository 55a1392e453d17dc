-- ===== src/Store/Review/Resolved.antt =====
-- Saving a resolution resolves one incident and leaves an audit record.
use mathlib.Core.Path.{subst}
use valaf.Common.{
  ℕ, ◌≤◌, ◌≡◌, ◌≢◌, refl, sym, ap, Bool, true, false, Bool-cases, ◌⊎◌, inl, inr, some, List, [],
  ◌∷◌, ◌++◌, eqb, eqb_iff, eqb_refl, update, any, count, count-append, arith,
}
use valaf.Common.Effect.{Error, Result, ok, err, ◌>>◌}
use valaf.Core.Alert.{Time}
use valaf.Store.Tables.{resolved, IncidentRow, ResolutionRow, AuditRow, Tables}
use valaf.Store.Sql.{Conn, exec, write}
use valaf.Store.Sql.Rules.{
  transaction-err, Gives, Gives-bind, Gives-query, Gives-transaction, Holds,
}
use valaf.Store.Jobs.{incident_exists}
use valaf.Store.Review.{
  ResolutionInput, record_audit, resolution_row, is_resolution_of, upsert_resolution,
  write_resolution, is_deleted, mark_resolved, resolution_body, save_resolution,
}

-- Row by row: the incident is resolved now unless it is deleted, and any other is as before.
abbrev pub AllResolved : Time → ℕ → List IncidentRow → List IncidentRow → Type 0
AllResolved now id [] [] = Unit
AllResolved now id (i ∷ is) (j ∷ js) =
    (((j ≡ i) × ((i.id ≢ id) ⊎ (is_deleted i.status ≡ true)))
      ⊎ ((i.id ≡ id)
          × (j.id ≡ id)
          × (j.status ≡ resolved)
          × (j.resolved_at ≡ some now)
          × (j.published_at ≡ i.published_at)
          × (j.triage_verdict ≡ i.triage_verdict)))
    × AllResolved now id is js
AllResolved now id [] (j ∷ js) = ⊥
AllResolved now id (i ∷ is) [] = ⊥

mark_resolved-AllResolved :
    (now : Time) (id : ℕ) (rows : List IncidentRow)
    → AllResolved now id rows (mark_resolved now id rows)
unfolding mark_resolved
mark_resolved-AllResolved now id [] = tt
mark_resolved-AllResolved now id (i ∷ rest) =
    let tail = mark_resolved-AllResolved now id rest in
    elim (Bool-cases (eqb i.id id)) [
      | inr e ↦ rw e (inl (refl, inl (ground (arith, e))), tail)
      | inl e ↦ elim (Bool-cases (is_deleted i.status)) [
        | inl d ↦ rw e (rw d (inl (refl, inr refl), tail))
        | inr d ↦
            let same = (eqb_iff i.id id).0 e in
            rw e (rw d (inr (same, same, refl, refl, refl, refl), tail))
      ]
    ]

any-count :
    (p : ResolutionRow → Bool) (rows : List ResolutionRow) → any p rows ≡ false → count p rows ≡ 0
any-count p [] h = refl
any-count p (r ∷ rest) h = elim (Bool-cases (p r)) [
  | inl e ↦ cc (rw e at h)
  | inr e ↦ rw e (omega (arith, any-count p rest (rw e at h)))
]

any-count_positive :
    (p : ResolutionRow → Bool) (rows : List ResolutionRow) → any p rows ≡ true → 1 ≤ count p rows
any-count_positive p [] h = cc
any-count_positive p (r ∷ rest) h = elim (Bool-cases (p r)) [
  | inl e ↦ rw e (omega arith)
  | inr e ↦ rw e (omega (arith, any-count_positive p rest (rw e at h)))
]

count-replace :
    (id : ℕ) (row : ResolutionRow) (rows : List ResolutionRow)
    → is_resolution_of id row ≡ true
    → count (is_resolution_of id) (update (is_resolution_of id) (λ _. row) rows)
      ≡ count (is_resolution_of id) rows
count-replace id row [] h = refl
count-replace id row (r ∷ rest) h = elim (Bool-cases (is_resolution_of id r)) [
  | inl e ↦ rw e (rw h (rw (count-replace id row rest h)))
  | inr e ↦ rw e (rw e (rw (count-replace id row rest h)))
]

module _ (now : Time) (id : ℕ) (input : ResolutionInput) (actor_id : ℕ) where
  -- the incident has exactly one resolution, if it had at most one
  upsert_resolution-one :
      (rows : List ResolutionRow)
      → count (is_resolution_of id) rows ≤ 1
      → count (is_resolution_of id) (upsert_resolution now id input actor_id rows) ≡ 1
  unfolding upsert_resolution
  upsert_resolution-one rows most = elim (Bool-cases (any (is_resolution_of id) rows)) [
    | inl e ↦ rw e (
        rw (count-replace id (resolution_row now id input actor_id) rows (eqb_refl id))
          (omega (arith, most, any-count_positive (is_resolution_of id) rows e)))
    | inr e ↦
        rw e (rw count-append (rw eqb_refl (omega (arith, any-count (is_resolution_of id) rows e))))
  ]

  abbrev pub audit_row : AuditRow
  audit_row = record {
    actor_id = actor_id;
    action = "resolution_saved";
    entity_type = "incident";
    entity_id = id;
    details = [];
    at = now;
  }

  -- the tables after the resolution was saved
  abbrev pub Saved : Tables → Tables → Type 0
  Saved t0 t =
      (incident_exists id t0 ≡ true)
      × (t ≡ record t0 {
        resolutions = upsert_resolution now id input actor_id t0.resolutions;
        incidents = mark_resolved now id t0.incidents;
        audit_log = t0.audit_log ++ audit_row ∷ [];
      })

  abbrev Written : Tables → Tables → Type 0
  Written t0 t =
      (incident_exists id t0 ≡ true)
      × (t ≡ record t0 { resolutions = upsert_resolution now id input actor_id t0.resolutions })

  write-Written :
      (t0 t : Tables) → t ≡ t0 → Holds (λ _. Written t0) (write_resolution now id input actor_id t)
  unfolding write_resolution
  write-Written t0 t same =
      subst (λ (x : Tables). Holds (λ _. Written t0) (write_resolution now id input actor_id x))
        (sym same)
        (elim (Bool-cases (incident_exists id t0)) [ inl e ↦ rw e (e, refl) | inr e ↦ rw e tt ])

  abbrev Marked : Tables → Tables → Type 0
  Marked t0 t =
      (incident_exists id t0 ≡ true)
      × (t ≡ record t0 {
        resolutions = upsert_resolution now id input actor_id t0.resolutions;
        incidents = mark_resolved now id t0.incidents;
      })

  abbrev set_resolved : Tables → Tables
  set_resolved t = record t { incidents = mark_resolved now id t.incidents }

  abbrev write_audit : Tables → Tables
  write_audit t = record t { audit_log = t.audit_log ++ audit_row ∷ [] }

  body-Saved :
      (t0 : Tables)
      → Gives
          (λ t. t ≡ t0)
          (exec (write_resolution now id input actor_id)
            >> (exec (write set_resolved) >> exec (write write_audit)))
          (λ _. Saved t0)
  body-Saved t0 =
      Gives-bind (exec (write_resolution now id input actor_id))
        (λ _. exec (write set_resolved) >> exec (write write_audit)) (λ _. Written t0)
        (Gives-query (write_resolution now id input actor_id) (write-Written t0))
        (λ _.
          Gives-bind (exec (write set_resolved)) (λ _. exec (write write_audit)) (λ _. Marked t0)
            (Gives-query (write set_resolved) (λ t (known, same). (known, ap set_resolved same)))
            (λ _.
              Gives-query (write write_audit) (λ t (known, same). (known, ap write_audit same))))

-- Saving a resolution of an incident that has at most one is all or nothing. If it returns an error,
-- no table has changed. If it succeeds, the incident exists and has exactly one resolution, however
-- often it is saved; the incident is resolved now, unless it is deleted, and keeps the time of its
-- publication and its verdict; no other incident changes; and the audit log has exactly one more
-- record, of this action.
pub save_resolution_resolves :
    (now : Time) (id : ℕ) (input : ResolutionInput) (actor_id : ℕ) (c : Conn) (r : Result Unit)
    (c' : Conn)
    → count (is_resolution_of id) c.tables.resolutions ≤ 1
    → save_resolution now id input actor_id c ≡ (r, c')
    → ((e : Error) × (r ≡ err e) × (c'.tables ≡ c.tables))
      ⊎ ((r ≡ ok tt)
          × (incident_exists id c.tables ≡ true)
          × (count (is_resolution_of id) c'.tables.resolutions ≡ 1)
          × AllResolved now id c.tables.incidents c'.tables.incidents
          × (c'.tables.audit_log ≡ c.tables.audit_log ++ audit_row now id input actor_id ∷ []))
unfolding save_resolution resolution_body record_audit
save_resolution_resolves now id input actor_id c (err e) c' most h =
    inl (e, refl, transaction-err (resolution_body now id input actor_id) c e c' h)
save_resolution_resolves now id input actor_id c (ok tt) c' most h =
    let (known, same) =
      (Gives-transaction (resolution_body now id input actor_id)
          (body-Saved now id input actor_id c.tables)).at
        c tt c' refl h in
    inr (
      refl,
      known,
      rw same (upsert_resolution-one now id input actor_id c.tables.resolutions most),
      rw same (mark_resolved-AllResolved now id c.tables.incidents),
      rw same refl,
    )
