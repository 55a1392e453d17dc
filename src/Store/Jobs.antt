-- ===== src/Store/Jobs.antt =====
-- internal/store/jobs.go: the job queue. `now` is the clock of the server or of the process.
-- A claim is one UPDATE, so that no other transaction holds a row of it when it runs, and SKIP
-- LOCKED has nothing to skip.
pub mod Claim
use valaf.Common.{
  ℕ, suc, ◌+◌, String, Bool, true, false, ◌&&◌, ◌||◌, Option, none, some, List, [], ◌∷◌, ◌++◌, leb,
  ltb, eqb, select, update, any, if◌then◌else◌,
}
use valaf.Common.Effect.{Error, Result, ok, err, constraint}
use valaf.Core.Alert.{Time}
use valaf.Store.Tables.{JobStatus, pending, running, done, failed, JobRow, IncidentRow, Tables}
use valaf.Store.Sql.{Sql, Query, exec, write}

-- `staleRunning`, 5 minutes
abbrev pub stale_running : Time
stale_running = 300

-- what a worker sees of a job; an id that is NULL is the empty text of `COALESCE`
pub record Job : Type 0 where
  pub id : ℕ
  pub kind : String
  pub incident_id : Option ℕ
  pub attempts : ℕ
  pub max_attempts : ℕ

abbrev pub is_pending : JobStatus → Bool
is_pending pending = true
is_pending _ = false

abbrev pub is_running : JobStatus → Bool
is_running running = true
is_running _ = false

-- the WHERE clause of the claim: due, or running for too long
unfoldable pub is_runnable : Time → JobRow → Bool
is_runnable now j =
    (is_pending j.status && leb j.run_at now)
    || (is_running j.status && ltb (j.updated_at + stale_running) now)

abbrev pub sooner : JobRow → Option JobRow → Option JobRow
sooner j none = some j
sooner j (some k) = if ltb k.run_at j.run_at then some k else some j

-- ORDER BY run_at LIMIT 1
unfoldable pub earliest : List JobRow → Option JobRow
earliest [] = none
earliest (j ∷ rest) = sooner j (earliest rest)

unfoldable pub claim : Time → JobRow → JobRow
claim now j = record j { status = running; attempts = suc j.attempts; updated_at = now }

abbrev pub job_of : JobRow → Job
job_of r = record {
  id = r.id;
  kind = r.kind;
  incident_id = r.incident_id;
  attempts = r.attempts;
  max_attempts = r.max_attempts;
}

abbrev pub has_id : ℕ → JobRow → Bool
has_id id r = eqb r.id id

claim_found : Time → Option JobRow → Query (Option Job)
unfolding claim
claim_found now none t = ok (none, t)
claim_found now (some j) t =
    ok (some (job_of (claim now j)), record t { jobs = update (has_id j.id) (claim now) t.jobs })

-- the UPDATE of `Dequeue`
unfoldable pub claim_next : Time → Query (Option Job)
unfolding claim_found earliest is_runnable
claim_next now t = claim_found now (earliest (select (is_runnable now) t.jobs)) t

unfoldable pub dequeue : Time → Sql (Option Job)
unfolding claim_next
dequeue now = exec (claim_next now)

abbrev pub incident_exists : ℕ → Tables → Bool
incident_exists id t = any (λ (i : IncidentRow). eqb i.id id) t.incidents

abbrev pub new_job : Time → ℕ → String → ℕ → JobRow
new_job now id kind incident_id = record {
  id = id;
  kind = kind;
  incident_id = some incident_id;
  status = pending;
  attempts = 0;
  max_attempts = 3;
  run_at = now;
  last_error = none;
  updated_at = now;
}

-- the INSERT of `Enqueue`, with the foreign key of `incident_id`
unfoldable pub insert_job : Time → String → ℕ → Query Unit
insert_job now kind incident_id t =
    if incident_exists incident_id t
    then ok (
      tt,
      record t {
        next_id = suc t.next_id;
        jobs = t.jobs ++ new_job now t.next_id kind incident_id ∷ [];
      },
    )
    else err constraint

unfoldable pub enqueue : Time → String → ℕ → Sql Unit
unfolding insert_job
enqueue now kind incident_id = exec (insert_job now kind incident_id)

-- UPDATE jobs SET ... WHERE id = $1
abbrev pub update_job : ℕ → (JobRow → JobRow) → Query Unit
update_job id f = write (λ t. record t { jobs = update (has_id id) f t.jobs })

unfoldable pub complete : Time → ℕ → Sql Unit
complete now id =
    exec (update_job id (λ r. record r { status = done; last_error = none; updated_at = now }))

unfoldable pub retry : Time → ℕ → Time → Error → Sql Unit
retry now id backoff cause = exec (
    update_job id (λ r. record r {
      status = pending;
      run_at = now + backoff;
      last_error = some cause;
      updated_at = now;
    }))

unfoldable pub fail : Time → ℕ → Error → Sql Unit
fail now id cause =
    exec
      (update_job id (λ r. record r { status = failed; last_error = some cause; updated_at = now }))
