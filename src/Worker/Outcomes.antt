-- ===== src/Worker/Outcomes.antt =====
-- How a job that was claimed ends.
use valaf.Common.{
  ℕ, ◌+◌, ◌≤◌, ◌<◌, ◌≡◌, refl, true, false, Bool-cases, ◌⊎◌, inl, inr, none, some, List, [], ◌∷◌,
  leb, leb→le, eqb, update, All, arith,
}
use valaf.Common.Effect.{Result, ok, err}
use valaf.Core.Alert.{Time}
use valaf.Store.Tables.{pending, done, failed, JobRow}
use valaf.Store.Sql.{Conn, fails_next, spend, exec, finish_query}
use valaf.Store.Jobs.{Job, has_id, dequeue, complete, retry, fail}
use valaf.Worker.{Worker, retry_backoff, handle, conclude, after_claim, process_one}

-- The row of a job whose handler ended with a result: done; or failed for good, when the attempts are
-- used up; or pending again, not before the backoff.
abbrev pub Settled : Time → Job → Result Unit → JobRow → Type 0
Settled finish job (ok _) r = r.status ≡ done
Settled finish job (err e) r =
    (r.last_error ≡ some e)
    × (((job.max_attempts ≤ job.attempts) × (r.status ≡ failed))
        ⊎ ((job.attempts < job.max_attempts)
            × (r.status ≡ pending)
            × (r.run_at ≡ finish + retry_backoff)))

All-update_id :
    (P : JobRow → Type 0) (id : ℕ) (f : JobRow → JobRow) (rows : List JobRow)
    → ((r : JobRow) → P (f r))
    → All (λ r. r.id ≡ id → P r) (update (has_id id) f rows)
All-update_id P id f [] h = tt
All-update_id P id f (r ∷ rest) h = elim (Bool-cases (eqb r.id id)) [
  | inl e ↦ rw e (λ _. h r, All-update_id P id f rest h)
  | inr e ↦ rw e (λ q. ground (arith, q), All-update_id P id f rest h)
]

conclude-Settled :
    (finish : Time) (job : Job) (res : Result Unit) (c : Conn)
    → fails_next c ≡ false
    → (c' : Conn) × (conclude finish job res c ≡ (ok tt, c'))
      × All (λ r. r.id ≡ job.id → Settled finish job res r) c'.tables.jobs
unfolding conclude complete retry fail exec finish_query
conclude-Settled finish job (ok tt) c up =
    let f : JobRow → JobRow =
      λ r. record r { status = done; last_error = none; updated_at = finish } in
    (
      record (spend c) {
        tables = record c.tables { jobs = update (has_id job.id) f c.tables.jobs };
      },
      rw up refl,
      All-update_id (Settled finish job (ok tt)) job.id f c.tables.jobs (λ r. refl),
    )
conclude-Settled finish job (err e) c up = elim (Bool-cases (leb job.max_attempts job.attempts)) [
  | inl full ↦
      let f : JobRow → JobRow =
        λ r. record r { status = failed; last_error = some e; updated_at = finish } in
      (
        record (spend c) {
          tables = record c.tables { jobs = update (has_id job.id) f c.tables.jobs };
        },
        rw full (rw up refl),
        All-update_id (Settled finish job (err e)) job.id f c.tables.jobs
            (λ r. (refl, inl (leb→le job.max_attempts job.attempts full, refl))),
      )
  | inr left ↦
      let f : JobRow → JobRow = λ r. record r {
        status = pending;
        run_at = finish + retry_backoff;
        last_error = some e;
        updated_at = finish;
      } in
      (
        record (spend c) {
          tables = record c.tables { jobs = update (has_id job.id) f c.tables.jobs };
        },
        rw left (rw up refl),
        All-update_id (Settled finish job (err e)) job.id f c.tables.jobs
            (λ r. (refl, inr (ground (arith, left), refl, refl))),
      )
]

-- When a job was claimed, its handler has returned and the connection does not fail at the statement
-- that follows, then the loop's step reports that it worked without an error, and the rows of the job
-- say how the handler ended: done; or, with the handler's error, failed if its attempts have reached
-- the maximum, and otherwise pending again no sooner than the backoff after the handler's end.
pub process_one-Settled :
    (w : Worker) (start finish : Time) (c : Conn) (job : Job) (c1 : Conn) (res : Result Unit)
    (c2 : Conn)
    → dequeue start c ≡ (ok (some job), c1)
    → handle w finish job c1 ≡ (res, c2)
    → fails_next c2 ≡ false
    → (c' : Conn) × (process_one w start finish c ≡ ((true, none), c'))
      × All (λ r. r.id ≡ job.id → Settled finish job res r) c'.tables.jobs
unfolding process_one after_claim
process_one-Settled w start finish c job c1 res c2 claim handled up =
    let (c', concluded, settled) = conclude-Settled finish job res c2 up in
    (c', rw claim (rw handled (rw concluded refl)), settled)
