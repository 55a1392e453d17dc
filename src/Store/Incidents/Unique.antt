-- ===== src/Store/Incidents/Unique.antt =====
-- An alert that is delivered again does not get a second row.
use valaf.Common.{
  ℕ, ◌≤◌, ◌≡◌, refl, String, Bool, true, false, Bool-cases, inl, inr, List, [], ◌∷◌, ◌++◌, eqb,
  eqb_iff, eq_iff, eqb_refl, eq_refl, update, any, count, count-append, All, arith,
}
use valaf.Common.Effect.{ok}
use valaf.Core.Alert.{Alert, AlertBatch, Time}
use valaf.Core.Intake.{IngestOutcome}
use valaf.Store.Tables.{AlertRow}
use valaf.Store.Sql.{Conn}
use valaf.Store.Incidents.{is_alert, new_alert, refresh, upsert_row, ingest_batch}
use valaf.Store.Incidents.Correlate.{upsert_rows, ingest_batch-Stored}

-- the unique index `uq_alerts_incident_fingerprint`
abbrev pub IsUnique : List AlertRow → Type 0
IsUnique rows = (i : ℕ) (f : String) → count (is_alert i f) rows ≤ 1

count-any : (p : AlertRow → Bool) (rows : List AlertRow) → any p rows ≡ false → count p rows ≡ 0
count-any p [] h = refl
count-any p (r ∷ rest) h = elim (Bool-cases (p r)) [
  | inl e ↦ cc (rw e at h)
  | inr e ↦ rw e (omega (arith, count-any p rest (rw e at h)))
]

count-any-true : (p : AlertRow → Bool) (rows : List AlertRow) → any p rows ≡ true → 1 ≤ count p rows
count-any-true p [] h = cc
count-any-true p (r ∷ rest) h = elim (Bool-cases (p r)) [
  | inl e ↦ rw e (omega arith)
  | inr e ↦ rw e (omega (arith, count-any-true p rest (rw e at h)))
]

-- the update of a row keeps its key
count-refresh :
    (i : ℕ) (f : String) (now : Time) (a : Alert) (p : AlertRow → Bool) (rows : List AlertRow)
    → count (is_alert i f) (update p (refresh now a) rows) ≡ count (is_alert i f) rows
count-refresh i f now a p [] = refl
count-refresh i f now a p (r ∷ rest) = elim (Bool-cases (p r)) [
  | inl e ↦ rw e (rw (count-refresh i f now a p rest))
  | inr e ↦ rw e (rw (count-refresh i f now a p rest))
]

same_key :
    (now : Time) (id i : ℕ) (source f : String) (a : Alert)
    → is_alert i f (new_alert now id source a) ≡ true
    → (id ≡ i) × (a.fingerprint ≡ f)
same_key now id i source f a h = elim (Bool-cases (eqb id i)) [
  | inl e ↦ ((eqb_iff id i).0 e, (eq_iff a.fingerprint f).0 (rw e at h))
  | inr e ↦ cc (rw e at h)
]

module _ (now : Time) (id : ℕ) (source : String) (a : Alert) (rows : List AlertRow) where
  count_new :
      (i : ℕ) (f : String)
      → any (is_alert id a.fingerprint) rows ≡ false
      → count (is_alert i f) rows ≤ 1
      → count (is_alert i f) (rows ++ new_alert now id source a ∷ []) ≤ 1
  count_new i f absent u = elim (Bool-cases (is_alert i f (new_alert now id source a))) [
    | inl e ↦
        let (p, q) = same_key now id i source f a e in
        rw count-append (
          rw e (
            rw (← p) (rw (← q) (omega (arith, count-any (is_alert id a.fingerprint) rows absent)))))
    | inr e ↦ rw count-append (rw e (omega arith))
  ]

  upsert_row-IsUnique : IsUnique rows → IsUnique (upsert_row now id source a rows)
  unfolding upsert_row
  upsert_row-IsUnique u i f = elim (Bool-cases (any (is_alert id a.fingerprint) rows)) [
    | inl e ↦ rw e (rw count-refresh (u i f))
    | inr e ↦ rw e (count_new i f e (u i f))
  ]

  -- no row goes
  upsert_row_grows :
      (i : ℕ) (f : String)
      → count (is_alert i f) rows ≤ count (is_alert i f) (upsert_row now id source a rows)
  unfolding upsert_row
  upsert_row_grows i f = elim (Bool-cases (any (is_alert id a.fingerprint) rows)) [
    | inl e ↦ rw e (rw count-refresh (omega arith))
    | inr e ↦ rw e (rw count-append (omega arith))
  ]

  upsert_row_present : 1 ≤ count (is_alert id a.fingerprint) (upsert_row now id source a rows)
  unfolding upsert_row
  upsert_row_present = elim (Bool-cases (any (is_alert id a.fingerprint) rows)) [
    | inl e ↦ rw e (rw count-refresh (count-any-true (is_alert id a.fingerprint) rows e))
    | inr e ↦ rw e (rw count-append (rw eqb_refl (rw eq_refl (omega arith))))
  ]

module _ (now : Time) (id : ℕ) (source : String) where
  upsert_rows-IsUnique :
      (alerts : List Alert) (rows : List AlertRow)
      → IsUnique rows
      → IsUnique (upsert_rows now id source alerts rows)
  unfolding upsert_rows
  upsert_rows-IsUnique [] rows u = u
  upsert_rows-IsUnique (a ∷ rest) rows u =
      upsert_rows-IsUnique rest (upsert_row now id source a rows)
        (upsert_row-IsUnique now id source a rows u)

  upsert_rows_grow :
      (alerts : List Alert) (rows : List AlertRow) (i : ℕ) (f : String)
      → count (is_alert i f) rows ≤ count (is_alert i f) (upsert_rows now id source alerts rows)
  unfolding upsert_rows
  upsert_rows_grow [] rows i f = omega arith
  upsert_rows_grow (a ∷ rest) rows i f = omega (
    arith,
    upsert_row_grows now id source a rows i f,
    upsert_rows_grow rest (upsert_row now id source a rows) i f,
  )

  upsert_rows_present :
      (alerts : List Alert) (rows : List AlertRow)
      → All
          (λ a. 1 ≤ count (is_alert id a.fingerprint) (upsert_rows now id source alerts rows))
          alerts
  unfolding upsert_rows
  upsert_rows_present [] rows = tt
  upsert_rows_present (a ∷ rest) rows = (
    omega (
      arith,
      upsert_row_present now id source a rows,
      upsert_rows_grow rest (upsert_row now id source a rows) id a.fingerprint,
    ),
    upsert_rows_present rest (upsert_row now id source a rows),
  )

  exactly_one :
      (alerts : List Alert) (rows : List AlertRow)
      → IsUnique rows
      → All (λ a. 1 ≤ count (is_alert id a.fingerprint) rows) alerts
      → All (λ a. count (is_alert id a.fingerprint) rows ≡ 1) alerts
  exactly_one [] rows u h = tt
  exactly_one (a ∷ rest) rows u h = (omega (arith, u id a.fingerprint), exactly_one rest rows u h.1)

-- In a table where no incident has two rows for one fingerprint, storing a batch keeps it so; and
-- then each alert of the batch has exactly one row under the incident, however often it is delivered
-- and also where the batch holds a fingerprint twice.
pub ingest_batch-IsUnique :
    (now : Time) (batch : AlertBatch) (severity : String) (since : Time) (c : Conn)
    (out : IngestOutcome) (c' : Conn)
    → IsUnique c.tables.alerts
    → ingest_batch now batch severity since c ≡ (ok out, c')
    → IsUnique c'.tables.alerts
      × All (λ a. count (is_alert out.incident_id a.fingerprint) c'.tables.alerts ≡ 1) batch.alerts
ingest_batch-IsUnique now batch severity since c out c' u h =
    let unique =
      upsert_rows-IsUnique now out.incident_id batch.source batch.alerts c.tables.alerts u in
    rw ((ingest_batch-Stored now batch severity since c out c' h).1) (
      unique,
      exactly_one now out.incident_id batch.source batch.alerts
          (upsert_rows now out.incident_id batch.source batch.alerts c.tables.alerts) unique
          (upsert_rows_present now out.incident_id batch.source batch.alerts c.tables.alerts),
    )
