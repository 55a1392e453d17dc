-- ===== src/Worker.antt =====
-- internal/worker/worker.go: one job at a time from the queue. `start` is the clock when a job is
-- claimed, `finish` when its handler ends.
pub mod Outcomes
use valaf.Common.{
  ℕ, ◌+◌, String, Bool, true, false, Option, none, some, List, [], ◌∷◌, leb, ◌==◌, if◌then◌else◌,
}
use valaf.Common.Effect.{Error, Result, ok, err, message, Eff, pure, throw, attempt, ◌>>=◌, ◌>>◌}
use valaf.Core.Alert.{Time}
use valaf.Core.Collect.{Collector, CollectionService, collect}
use valaf.Core.Analyze.{AiProvider, analyze}
use valaf.Core.Notify.{NotificationChannel, notify}
use valaf.Store.Sql.{Server, Conn, Sql}
use valaf.Store.Jobs.{Job, dequeue, enqueue, complete, retry, fail}
use valaf.Store.Incidents.{load_collect_target}
use valaf.Store.Evidence.{evidence_repo}
use valaf.Store.Retrieval.{analysis_repo}
use valaf.Store.Notifications.{notification_repo}

-- `retryBackoff`, 30 seconds
abbrev pub retry_backoff : Time
retry_backoff = 30

-- The parts that reach outside: the database server, collectors, the AI provider and the channels.
pub record Worker : Type 0 where
  pub server : Server
  pub collectors : List (Collector Conn)
  pub per_timeout : Time
  pub provider : Option (AiProvider Conn)
  pub channels : List (NotificationChannel Conn)

abbrev pub collection_of : Worker → Time → CollectionService Conn
collection_of w now = record {
  collectors = w.collectors;
  evidence = evidence_repo w.server now;
  per_timeout = w.per_timeout;
}

unfoldable pub handle_collect : Worker → Time → Option ℕ → Sql Unit
handle_collect w now none = throw (message "collect job has no incident_id")
handle_collect w now (some id) = do
  target ← load_collect_target now id
  collect (collection_of w now) target
  enqueue now "analyze" id

unfoldable pub handle_analyze : Worker → Time → Option ℕ → Sql Unit
handle_analyze w now none = throw (message "analyze job has no incident_id")
handle_analyze w now (some id) = do
  analyze w.provider (analysis_repo now) id
  enqueue now "notify" id

unfoldable pub handle_notify : Worker → Option ℕ → Sql Unit
handle_notify w none = throw (message "notify job has no incident_id")
handle_notify w (some id) = do notify notification_repo w.channels id; pure tt

unfoldable pub handle : Worker → Time → Job → Sql Unit
unfolding handle_collect handle_analyze handle_notify
handle w now job =
    if job.kind == "collect"
    then handle_collect w now job.incident_id
    else if job.kind == "analyze"
    then handle_analyze w now job.incident_id
    else if job.kind == "notify"
    then handle_notify w job.incident_id
    else throw (message "unknown job kind")

-- the bookkeeping after the handler
unfoldable pub conclude : Time → Job → Result Unit → Sql Unit
conclude finish job (ok _) = complete finish job.id
conclude finish job (err e) =
    if leb job.max_attempts job.attempts
    then fail finish job.id e
    else retry finish job.id retry_backoff e

abbrev pub error_of : Result Unit → Option Error
error_of (ok _) = none
error_of (err e) = some e

-- `processOne` returns both whether a job was claimed and an error.
abbrev pub claimed : Result Unit × Conn → (Bool × Option Error) × Conn
claimed (r, c) = ((true, error_of r), c)

unfoldable pub after_claim :
    Worker → Time → Result (Option Job) × Conn → (Bool × Option Error) × Conn
unfolding handle conclude
after_claim w finish (err e, c) = ((false, some e), c)
after_claim w finish (ok none, c) = ((false, none), c)
after_claim w finish (ok (some job), c) =
    let (r, c') = handle w finish job c in claimed (conclude finish job r c')

unfoldable pub process_one : Worker → Time → Time → Conn → (Bool × Option Error) × Conn
unfolding after_claim
process_one w start finish c = after_claim w finish (dequeue start c)
