-- ===== src/Store/Incidents/Correlate.antt =====
-- What `IngestBatch` leaves in the tables, and that it is all or nothing.
use valaf.Common.{
  ℕ, ◌≤◌, ◌<◌, ltb→lt, eq_iff, arith, none, some, In-select, ◌≡◌, refl, ap, ◌∙◌, String, Bool, true,
  false, Bool-cases, ◌⊎◌, inl, inr, List, [], ◌∷◌, ◌++◌, select, length, All, In,
}
use valaf.Common.Effect.{Error, Result, ok, err, ◌>>◌}
use valaf.Core.Alert.{Alert, AlertBatch, Time}
use valaf.Core.Intake.{IngestOutcome}
use valaf.Store.Tables.{
  IncidentStatus, opened, analyzing, published, resolved, false_positive, deleted, pending,
  IncidentRow, AlertRow, JobRow, Tables,
}
use valaf.Store.Sql.{Conn, transaction}
use valaf.Store.Sql.Rules.{
  Gives, Gives-query, Gives-bind, Gives-pure, Gives-transaction, Holds, transaction-err,
}
use valaf.Store.Jobs.{new_job, insert_job, incident_exists}
use valaf.Store.Incidents.Lookup.{Chosen, find_or_create-Chosen}
use valaf.Store.Incidents.{
  is_active, absorbs, is_level, new_incident, find_or_create, upsert_row, is_alert_source,
  write_alert, upsert_alert, upsert_alerts, enqueue_if, store_alerts, ingest_body, ingest_batch,
}

-- the alerts table after the loop over a batch
unfoldable pub upsert_rows : Time → ℕ → String → List Alert → List AlertRow → List AlertRow
upsert_rows now id source [] rows = rows
upsert_rows now id source (a ∷ rest) rows =
    upsert_rows now id source rest (upsert_row now id source a rows)

upsert_alerts-Gives :
    (now : Time) (id : ℕ) (source : String) (alerts : List Alert) (t1 : Tables)
    → Gives
        (λ t. t ≡ t1)
        (upsert_alerts now id source alerts)
        (λ _ t. t ≡ record t1 { alerts = upsert_rows now id source alerts t1.alerts })
unfolding upsert_alerts upsert_rows
upsert_alerts-Gives now id source [] t1 = Gives-pure tt (λ t e. e)
upsert_alerts-Gives now id source (a ∷ rest) t1 =
    Gives-bind (upsert_alert now id source a) (λ _. upsert_alerts now id source rest)
      (λ _ t. t ≡ record t1 { alerts = upsert_row now id source a t1.alerts }) (one_row_written)
      (λ _.
        upsert_alerts-Gives now id source rest
          (record t1 { alerts = upsert_row now id source a t1.alerts }))
  where
    written :
        (t : Tables)
        → t ≡ t1
        → Holds
            (λ _ t'. t' ≡ record t1 { alerts = upsert_row now id source a t1.alerts })
            (write_alert now id source a t)
    written t e =
        unfold write_alert in
        elim (Bool-cases (is_alert_source source)) [
          | inl known ↦ rw known (rw e)
          | inr unknown ↦ rw unknown tt
        ]

    one_row_written :
        Gives
          (λ t. t ≡ t1)
          (upsert_alert now id source a)
          (λ _ t. t ≡ record t1 { alerts = upsert_row now id source a t1.alerts })
    one_row_written = unfold upsert_alert in Gives-query (write_alert now id source a) written

-- an active incident of the key that was opened after `since`
abbrev pub Joins : String → Time → IncidentRow → Type 0
Joins key since i =
    (i.grouping_key ≡ key)
    × (since < i.opened_at)
    × ((i.status ≡ opened) ⊎ ((i.status ≡ analyzing) ⊎ (i.status ≡ published)))

absorbs-Joins :
    (key : String) (since : Time) (i : IncidentRow) → absorbs key since i ≡ true → Joins key since i
unfolding absorbs
absorbs-Joins key since i h = (
  (eq_iff i.grouping_key key).0 (ground (arith, h)),
  ltb→lt since i.opened_at (ground (arith, h)),
  active i.status (ground (arith, h)),
)
  where
    active :
        (s : IncidentStatus)
        → is_active s ≡ true
        → (s ≡ opened) ⊎ ((s ≡ analyzing) ⊎ (s ≡ published))
    active opened e = inl refl
    active analyzing e = inr (inl refl)
    active published e = inr (inr refl)
    active resolved e = cc
    active false_positive e = cc
    active deleted e = cc

-- a new incident of a batch, and a job that is to collect evidence
abbrev pub Opened : Time → ℕ → AlertBatch → String → IncidentRow → Type 0
Opened now id batch severity i =
    (i ≡ new_incident now id batch severity)
    × (i.id ≡ id)
    × (i.status ≡ opened)
    × (i.title ≡ batch.title)
    × (i.severity ≡ severity)
    × (i.grouping_key ≡ batch.grouping_key)
    × (i.entity_bag ≡ batch.entity_bag)
    × (i.opened_at ≡ now)
    × (i.deleted_at ≡ none)

abbrev pub Pending : Time → ℕ → JobRow → Type 0
Pending now id j =
    (j.kind ≡ "collect")
    × (j.incident_id ≡ some id)
    × (j.status ≡ pending)
    × (j.attempts ≡ 0)
    × (j.run_at ≡ now)

-- The tables after a batch was stored under the incident `id`.
abbrev pub Stored : Time → AlertBatch → String → Time → Tables → IngestOutcome → Tables → Type 0
Stored now batch severity since t0 out t =
    (out.alerts ≡ length batch.alerts)
    × (t.alerts ≡ upsert_rows now out.incident_id batch.source batch.alerts t0.alerts)
    × (((out.created ≡ false)
          × (t.incidents ≡ t0.incidents)
          × (t.jobs ≡ t0.jobs)
          × ((i : IncidentRow) × In i (select (absorbs batch.grouping_key since) t0.incidents)
              × All (λ r. r.opened_at ≤ i.opened_at)
                  (select (absorbs batch.grouping_key since) t0.incidents)
              × (out.incident_id ≡ i.id)
              × Joins batch.grouping_key since i))
        ⊎ ((out.created ≡ true)
            × (select (absorbs batch.grouping_key since) t0.incidents ≡ [])
            × (is_level severity ≡ true)
            × ((i : IncidentRow) × (t.incidents ≡ t0.incidents ++ i ∷ [])
                × Opened now out.incident_id batch severity i)
            × ((n : ℕ) × (j : JobRow) × (t.jobs ≡ t0.jobs ++ j ∷ [])
                × (j ≡ new_job now n "collect" out.incident_id)
                × Pending now out.incident_id j)))

module _ (now : Time) (batch : AlertBatch) (severity : String) (since : Time) (t0 : Tables) where
  abbrev outcome_of : ℕ × Bool → IngestOutcome
  outcome_of (id, created) = record {
    incident_id = id;
    created = created;
    alerts = length batch.alerts;
  }

  abbrev Upserted : ℕ × Bool → Tables → Type 0
  Upserted found t =
      (t1 : Tables) × Chosen now batch severity since t0 found t1
      × (t ≡ record t1 { alerts = upsert_rows now found.0 batch.source batch.alerts t1.alerts })

  upsert-Upserted :
      (found : ℕ × Bool)
      → Gives
          (Chosen now batch severity since t0 found)
          (upsert_alerts now found.0 batch.source batch.alerts)
          (λ _. Upserted found)
  upsert-Upserted found = record {
    at = λ c a c' chosen h. (
      c.tables,
      chosen,
      (upsert_alerts-Gives now found.0 batch.source batch.alerts c.tables).at c a c' refl h,
    );
  }

  enqueue-Stored :
      (found : ℕ × Bool)
      → Gives
          (Upserted found)
          (enqueue_if found.1 now found.0)
          (λ _. Stored now batch severity since t0 (outcome_of found))
  enqueue-Stored (id, false) = Gives-pure tt (λ t (t1, (same, (i, m, l, e)), up). (
    refl,
    rw up (rw same refl),
    inl (
      refl,
      rw up (rw same refl),
      rw up (rw same refl),
      (
        i,
        m,
        l,
        e,
        absorbs-Joins batch.grouping_key since i
            (In-select (absorbs batch.grouping_key since) i t0.incidents m).1,
      ),
    ),
  ))
  enqueue-Stored (id, true) =
      Gives-query (insert_job now "collect" id) (λ t (t1, (empty, fresh, level, created), up).
        let alerts =
          ap (λ (x : Tables). x.alerts) up
          ∙ ap (λ (x : Tables). upsert_rows now id batch.source batch.alerts x.alerts) created in
        let incidents =
          ap (λ (x : Tables). x.incidents) up ∙ ap (λ (x : Tables). x.incidents) created in
        let jobs = ap (λ (x : Tables). x.jobs) up ∙ ap (λ (x : Tables). x.jobs) created in
        enqueued t empty level alerts (incidents ∙ rw fresh) jobs)
    where
      enqueued :
          (t : Tables)
          → select (absorbs batch.grouping_key since) t0.incidents ≡ []
          → is_level severity ≡ true
          → t.alerts ≡ upsert_rows now id batch.source batch.alerts t0.alerts
          → t.incidents ≡ t0.incidents ++ new_incident now id batch severity ∷ []
          → t.jobs ≡ t0.jobs
          → Holds
              (λ _. Stored now batch severity since t0 (outcome_of (id, true)))
              (insert_job now "collect" id t)
      enqueued t empty level alerts incidents jobs =
          unfold insert_job in
          elim (Bool-cases (incident_exists id t)) [
            | inl e ↦ rw e (
              refl,
              alerts,
              inr (
                refl,
                empty,
                level,
                (
                  new_incident now id batch severity,
                  incidents,
                  (refl, refl, refl, refl, refl, refl, refl, refl, refl),
                ),
                (
                  t.next_id,
                  new_job now t.next_id "collect" id,
                  rw jobs,
                  refl,
                  (refl, refl, refl, refl, refl),
                ),
              ),
            )
            | inr e ↦ rw e tt
          ]

  store_alerts-Stored :
      (found : ℕ × Bool)
      → Gives
          (Chosen now batch severity since t0 found)
          (store_alerts now batch found)
          (Stored now batch severity since t0)
  unfolding store_alerts
  store_alerts-Stored (id, created) =
      Gives-bind (upsert_alerts now id batch.source batch.alerts)
        (λ _. enqueue_if created now id >> λ c. (ok (outcome_of (id, created)), c))
        (λ _. Upserted (id, created)) (upsert-Upserted (id, created))
        (λ _.
          Gives-bind (enqueue_if created now id) (λ _. λ c. (ok (outcome_of (id, created)), c))
            (λ _. Stored now batch severity since t0 (outcome_of (id, created)))
            (enqueue-Stored (id, created)) (λ _. Gives-pure (outcome_of (id, created)) (λ t h. h)))

pub ingest_batch-Stored :
    (now : Time) (batch : AlertBatch) (severity : String) (since : Time) (c : Conn)
    (out : IngestOutcome) (c' : Conn)
    → ingest_batch now batch severity since c ≡ (ok out, c')
    → Stored now batch severity since c.tables out c'.tables
unfolding ingest_batch ingest_body
ingest_batch-Stored now batch severity since c out c' h = stored.at c out c' refl h
  where
    stored :
        Gives
          (λ t. t ≡ c.tables)
          (transaction (ingest_body now batch severity since))
          (Stored now batch severity since c.tables)
    stored = Gives-transaction (ingest_body now batch severity since) (
        Gives-bind (find_or_create now batch severity since) (store_alerts now batch)
          (Chosen now batch severity since c.tables)
          (find_or_create-Chosen now batch severity since c.tables)
          (store_alerts-Stored now batch severity since c.tables))

-- The intake is all or nothing. If it returns an error, no table has changed. If it succeeds, the
-- alerts of the batch are upserted under one incident. Either that is the newest of the active
-- incidents of the same grouping key opened after `since`, and no incident or job changes; or there
-- is none such, and one new open incident of a legal severity is added, together with exactly one
-- pending job that collects evidence for it.
pub ingest_batch_atomic :
    (now : Time) (batch : AlertBatch) (severity : String) (since : Time) (c : Conn)
    (r : Result IngestOutcome) (c' : Conn)
    → ingest_batch now batch severity since c ≡ (r, c')
    → ((e : Error) × (r ≡ err e) × (c'.tables ≡ c.tables))
      ⊎ ((out : IngestOutcome) × (r ≡ ok out)
          × Stored now batch severity since c.tables out c'.tables)
ingest_batch_atomic now batch severity since c (err e) c' h = inl (
  e,
  refl,
  unfold ingest_batch in transaction-err (ingest_body now batch severity since) c e c' h,
)
ingest_batch_atomic now batch severity since c (ok out) c' h =
    inr (out, refl, ingest_batch-Stored now batch severity since c out c' h)
