-- ===== src/Store/Jobs/Claim.antt =====
-- What `Dequeue` takes from the queue, and for how long the claim keeps others away.
use mathlib.Core.Path.{subst}
use valaf.Common.{
  ℕ, suc, ◌+◌, ◌≤◌, ◌<◌, ◌≡◌, ◌≢◌, refl, sym, ap, ◌∙◌, true, false, Bool-cases, inl, inr, Option,
  none, some, List, [], ◌∷◌, ltb, ltb→lt, eqb, select, update, All, In, In-select, arith,
}
use valaf.Common.Effect.{ok}
use valaf.Core.Alert.{Time}
use valaf.Store.Tables.{running, JobRow, Tables}
use valaf.Store.Sql.{Conn, fails_next, spend, exec, finish_query}
use valaf.Store.Sql.Rules.{exec-eq-ok, Holds}
use valaf.Store.Jobs.{
  Job, is_runnable, sooner, earliest, claim, job_of, has_id, claim_found, claim_next, dequeue,
  stale_running,
}

-- the earliest row stands in the list, and none runs before it
abbrev IsEarliest : JobRow → List JobRow → Type 0
IsEarliest j rows = In j rows × All (λ r. j.run_at ≤ r.run_at) rows

All-trans :
    (a b : ℕ) (rows : List JobRow)
    → a ≤ b
    → All (λ r. b ≤ r.run_at) rows
    → All (λ r. a ≤ r.run_at) rows
All-trans a b [] h k = tt
All-trans a b (r ∷ rest) h k = (omega (arith, k.0), All-trans a b rest h k.1)

abbrev Best : Option JobRow → List JobRow → Type 0
Best none rows = rows ≡ []
Best (some j) rows = IsEarliest j rows

Best-sooner :
    (r : JobRow) (o : Option JobRow) (rest : List JobRow)
    → Best o rest
    → Best (sooner r o) (r ∷ rest)
Best-sooner r none rest b = (inl refl, (omega arith, rw b tt))
Best-sooner r (some k) rest b = elim (Bool-cases (ltb k.run_at r.run_at)) [
  | inl e ↦ rw e (inr b.0, (omega (arith, ltb→lt k.run_at r.run_at e), b.1))
  | inr e ↦ rw e (inl refl, (omega arith, All-trans r.run_at k.run_at rest (ground arith) b.1))
]

earliest-Best : (rows : List JobRow) → Best (earliest rows) rows
unfolding earliest
earliest-Best [] = refl
earliest-Best (r ∷ rest) = Best-sooner r (earliest rest) rest (earliest-Best rest)

-- the row is running with one more attempt, and is otherwise as it was
abbrev pub Marked : Time → JobRow → JobRow → Type 0
Marked now r r' =
    (r'.status ≡ running)
    × (r'.attempts ≡ suc r.attempts)
    × (r'.updated_at ≡ now)
    × (r'.id ≡ r.id)
    × (r'.kind ≡ r.kind)
    × (r'.incident_id ≡ r.incident_id)
    × (r'.max_attempts ≡ r.max_attempts)
    × (r'.run_at ≡ r.run_at)

-- What a claim did to the tables. Nothing was runnable and nothing changed; or the job is that of a
-- runnable row that no other runnable row precedes, that row is now running with one more attempt,
-- and only rows of its id changed.
abbrev pub Claimed : Time → Tables → Option Job → Tables → Type 0
Claimed now t none t' = (t' ≡ t) × (select (is_runnable now) t.jobs ≡ [])
Claimed now t (some job) t' =
    (r : JobRow) × In r t.jobs
    × (is_runnable now r ≡ true)
    × All (λ q. r.run_at ≤ q.run_at) (select (is_runnable now) t.jobs)
    × (job ≡ job_of (claim now r))
    × (t' ≡ record t { jobs = update (has_id r.id) (claim now) t.jobs })
    × Marked now r (claim now r)

marked : (now : Time) (r : JobRow) → Marked now r (claim now r)
unfolding claim
marked now r = (refl, refl, refl, refl, refl, refl, refl, refl)

claim_found-Claimed :
    (now : Time) (t : Tables) (o : Option JobRow)
    → Best o (select (is_runnable now) t.jobs)
    → Holds (Claimed now t) (claim_found now o t)
unfolding claim_found
claim_found-Claimed now t none b = (refl, b)
claim_found-Claimed now t (some j) b =
    let (i, runnable) = In-select (is_runnable now) j t.jobs b.0 in
    (j, i, runnable, b.1, refl, refl, marked now j)

-- A claim that succeeds takes a runnable job that none precedes, marks it as running with one more
-- attempt and leaves the other jobs alone; it finds none only where no job is runnable.
pub dequeue_claims :
    (now : Time) (c : Conn) (found : Option Job) (c' : Conn)
    → dequeue now c ≡ (ok found, c')
    → Claimed now c.tables found c'.tables
unfolding dequeue claim_next
dequeue_claims now c found c' h =
    subst (Holds (Claimed now c.tables)) (exec-eq-ok (claim_next now) c found c' h) (
      claim_found-Claimed now c.tables (earliest (select (is_runnable now) c.tables.jobs))
        (earliest-Best (select (is_runnable now) c.tables.jobs)))

not_runnable :
    (now later : Time) (r : JobRow)
    → later ≤ now + stale_running
    → is_runnable later (claim now r) ≡ false
unfolding is_runnable claim
not_runnable now later r h = ground arith

-- rows that a claim has marked are not runnable while the claim is fresh
In-update-claim :
    (now later : Time) (id : ℕ) (r : JobRow) (rows : List JobRow)
    → later ≤ now + stale_running
    → In r (update (has_id id) (claim now) rows)
    → is_runnable later r ≡ true
    → r.id ≢ id
In-update-claim now later id r [] fresh i runnable = elim i [ ]
In-update-claim now later id r (x ∷ rest) fresh (inr i) runnable =
    In-update-claim now later id r rest fresh i runnable
In-update-claim now later id r (x ∷ rest) fresh (inl e) runnable = elim (Bool-cases (eqb x.id id)) [
  | inl same ↦
      let marked : r ≡ claim now x = rw same at e in
      λ q. cc (marked, runnable, not_runnable now later x fresh)
  | inr other ↦
      let kept : r ≡ x = rw other at e in λ q. ground (arith, ap (λ (y : JobRow). y.id) kept)
]

-- A second claim on the tables that a first one left, at a time when the first is not yet stale,
-- does not get a job of the same id, even where several rows were to share an id.
pub dequeue_exclusive :
    (now later : Time) (c : Conn) (a : Job) (c1 : Conn) (d : Conn) (b : Job) (d' : Conn)
    → dequeue now c ≡ (ok (some a), c1)
    → later ≤ now + stale_running
    → d.tables ≡ c1.tables
    → dequeue later d ≡ (ok (some b), d')
    → b.id ≢ a.id
unfolding claim
dequeue_exclusive now later c a c1 d b d' first fresh same second =
    let (r, i, ra, least, ea, et, _) = dequeue_claims now c (some a) c1 first in
    let (q, j, qa, leastq, eb, etq, _) = dequeue_claims later d (some b) d' second in
    let jobs : d.tables.jobs ≡ update (has_id r.id) (claim now) c.tables.jobs =
      ap (λ (t : Tables). t.jobs) (same ∙ et) in
    let k = In-update-claim now later r.id q c.tables.jobs fresh (subst (In q) jobs j) qa in
    λ e. k (sym (ap (λ (x : Job). x.id) eb) ∙ e ∙ ap (λ (x : Job). x.id) ea)

stale_runs :
    (now : Time) (r : JobRow)
    → r.status ≡ running
    → r.updated_at + stale_running < now
    → is_runnable now r ≡ true
unfolding is_runnable
stale_runs now r status stale = ground arith

-- A job that has been running for longer than `stale_running` and is alone in the queue is claimed
-- again whatever its number of attempts is, `max_attempts` or more included.
pub dequeue_reclaims_stale :
    (now : Time) (r : JobRow) (c : Conn)
    → c.tables.jobs ≡ r ∷ []
    → r.status ≡ running
    → r.updated_at + stale_running < now
    → fails_next c ≡ false
    → (c' : Conn) × (dequeue now c
        ≡ (ok (some (record (job_of r) { attempts = suc r.attempts })), c'))
unfolding dequeue claim_next claim_found earliest claim exec finish_query
dequeue_reclaims_stale now r c one status stale up = (
  record (spend c) {
    tables = record c.tables { jobs = update (has_id r.id) (claim now) (r ∷ []) };
  },
  rw up (rw one (rw (stale_runs now r status stale))),
)
