-- ===== src/Examples/Store.antt =====
-- The store and the worker on concrete data.
use valaf.Common.{
  Option, ℕ, ◌≡◌, ◌≢◌, refl, true, false, ◌⊎◌, none, some, List, [], ◌∷◌, ◌++◌, All, count, arith,
}
use valaf.Common.Effect.{Error, Result, ok, err}
use valaf.Core.Intake.{IngestOutcome}
use valaf.Core.Collect.{Attachment, collect}
use valaf.Store.Tables.{pending, running, JobRow, EvidenceRow, Tables, empty_tables}
use valaf.Store.Sql.{Conn, up, fails_next, exec, transaction}
use valaf.Store.Jobs.{Job, job_of, dequeue, enqueue, incident_exists}
use valaf.Store.Jobs.Claim.{Claimed, dequeue_claims, dequeue_exclusive, dequeue_reclaims_stale}
use valaf.Store.Incidents.{is_alert, upsert_alert, ingest_batch, load_collect_target}
use valaf.Store.Incidents.Correlate.{Stored, ingest_batch_atomic}
use valaf.Store.Incidents.Unique.{IsUnique, ingest_batch-IsUnique}
use mathlib.Core.Path.{subst}
use valaf.Store.Evidence.{is_storage_backend, save_evidence}
use valaf.Store.Evidence.Complete.{
  IsLegal, IsStorable, takes_blob, Recorded, save_evidence_complete,
}
use valaf.Worker.{Worker, handle, process_one}
use valaf.Worker.Outcomes.{Settled, process_one-Settled}
use valaf.Examples.Data.{lenient, batch, items}

abbrev first_outcome : IngestOutcome
first_outcome = record { incident_id = 1; created = true; alerts = 3 }

-- the store after the first batch
abbrev pub stored : Conn
stored = (ingest_batch 100 batch "critical" 40 (up empty_tables)).1

first_batch : ingest_batch 100 batch "critical" 40 (up empty_tables) ≡ (ok first_outcome, stored)
unfolding ingest_batch transaction exec upsert_alert
first_batch = refl

no_alerts : IsUnique empty_tables.alerts
no_alerts i f = omega arith

ingest_batch_atomic_example :
    ((e : Error) × (ok first_outcome ≡ err e) × (stored.tables ≡ empty_tables))
    ⊎ ((out : IngestOutcome) × (ok first_outcome ≡ ok out)
        × Stored 100 batch "critical" 40 empty_tables out stored.tables)
ingest_batch_atomic_example =
    ingest_batch_atomic 100 batch "critical" 40 (up empty_tables) (ok first_outcome) stored
      first_batch

ingest_batch-IsUnique_example :
    IsUnique stored.tables.alerts
    × All (λ a. count (is_alert 1 a.fingerprint) stored.tables.alerts ≡ 1) batch.alerts
ingest_batch-IsUnique_example =
    ingest_batch-IsUnique 100 batch "critical" 40 (up empty_tables) first_outcome stored no_alerts
      first_batch

abbrev job : Job
job = record { id = 2; kind = "collect"; incident_id = some 1; attempts = 1; max_attempts = 3 }

abbrev claimed : Conn
claimed = (dequeue 105 stored).1

first_claim : dequeue 105 stored ≡ (ok (some job), claimed)
unfolding dequeue ingest_batch exec transaction upsert_alert
first_claim = refl

dequeue_claims_example : Claimed 105 stored.tables (some job) claimed.tables
dequeue_claims_example = dequeue_claims 105 stored (some job) claimed first_claim

-- two jobs that are due
abbrev due : ℕ → JobRow
due id = record {
  id = id;
  kind = "collect";
  incident_id = some 1;
  status = pending;
  attempts = 0;
  max_attempts = 3;
  run_at = 50;
  last_error = none;
  updated_at = 50;
}

abbrev queue : Conn
queue = up (record empty_tables { jobs = due 7 ∷ due 8 ∷ [] })

abbrev queue_job : ℕ → Job
queue_job id = record {
  id = id;
  kind = "collect";
  incident_id = some 1;
  attempts = 1;
  max_attempts = 3;
}

abbrev second : Conn
second = (dequeue 100 queue).1

claim_of_seven : dequeue 100 queue ≡ (ok (some (queue_job 7)), second)
unfolding dequeue exec
claim_of_seven = refl

claim_of_eight : dequeue 200 second ≡ (ok (some (queue_job 8)), (dequeue 200 second).1)
unfolding dequeue exec
claim_of_eight = refl

dequeue_exclusive_example : (queue_job 8).id ≢ (queue_job 7).id
dequeue_exclusive_example =
    dequeue_exclusive 100 200 queue (queue_job 7) second second (queue_job 8) (dequeue 200 second).1
      claim_of_seven (omega arith) refl claim_of_eight

-- a job that is running for the fifth time of three, and for too long
abbrev stuck : JobRow
stuck = record (due 9) { status = running; attempts = 5 }

dequeue_reclaims_stale_example :
    (c' : Conn) × (dequeue 400 (up (record empty_tables { jobs = stuck ∷ [] }))
      ≡ (ok (some (record (job_of stuck) { attempts = 6 })), c'))
dequeue_reclaims_stale_example =
    dequeue_reclaims_stale 400 stuck (up (record empty_tables { jobs = stuck ∷ [] })) refl refl
      (omega arith) refl

-- a worker without collectors, provider and channels
abbrev idle : Worker
idle = record {
  server = lenient;
  collectors = [];
  per_timeout = 30;
  provider = none;
  channels = [];
}

abbrev handled : Result Unit × Conn
handled = handle idle 110 job claimed

still_up : fails_next handled.1 ≡ false
unfolding handle dequeue ingest_batch exec transaction upsert_alert load_collect_target collect
    enqueue
still_up = refl

handled_well : handled.0 ≡ ok tt
unfolding handle dequeue ingest_batch exec transaction upsert_alert load_collect_target collect
    enqueue
handled_well = refl

process_one-Settled_example :
    (c' : Conn) × (process_one idle 105 110 stored ≡ ((true, none), c'))
    × All (λ r. r.id ≡ 2 → Settled 110 job handled.0 r) c'.tables.jobs
process_one-Settled_example =
    process_one-Settled idle 105 110 stored job claimed handled.0 handled.1 first_claim refl
      still_up

-- incident 1 with two items of evidence
known : incident_exists 1 stored.tables ≡ true
unfolding ingest_batch exec transaction upsert_alert
known = refl

abbrev Local : Option Attachment → Type 0
Local none = Unit
Local (some a) = is_storage_backend a.storage_backend ≡ true

legal : All IsLegal items
legal = ((refl, λ a e. subst (λ (o : Option Attachment). Local o) e refl), ((refl, λ a e. cc), tt))

abbrev Takes : Option Attachment → Type 0
Takes none = Unit
Takes (some a) = takes_blob lenient a ≡ true

storable : All (IsStorable lenient) items
storable =
    ((refl, λ a e. subst (λ (o : Option Attachment). Takes o) e refl), ((refl, λ a e. cc), tt))

save_evidence_complete_example :
    (t' : Tables) × (rows : List EvidenceRow) × (save_evidence lenient 120 1 items
        (up stored.tables)
      ≡ (ok tt, up t'))
    × (t'.evidence_items ≡ stored.tables.evidence_items ++ rows)
    × Recorded 1 items rows
save_evidence_complete_example =
    save_evidence_complete lenient 120 1 items stored.tables legal storable known
