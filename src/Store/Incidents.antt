-- ===== src/Store/Incidents.antt =====
-- internal/store/incidents.go: correlation and storage of a batch of alerts, and the target that
-- the collectors are given.
pub mod Lookup
pub mod Correlate
pub mod Unique
use valaf.Common.{
  ℕ, suc, ◌+◌, ◌-◌, ◌*◌, String, Bool, true, false, ◌&&◌, ◌||◌, not, Option, none, some, List, [],
  ◌∷◌, ◌++◌, map, leb, ltb, eqb, select, update, first, any, length, ◌==◌, if◌then◌else◌,
}
use valaf.Common.Maps.{Map, find, put}
use valaf.Common.Effect.{Error, Result, ok, err, constraint, no_rows, Eff, pure, ◌>>=◌, ◌>>◌}
use valaf.Core.Alert.{Alert, AlertBatch, RawMessage, Time}
use valaf.Core.Intake.{IngestOutcome, IncidentRepository}
use valaf.Core.Collect.{CollectTarget, TimeWindow}
use valaf.Store.Tables.{
  IncidentStatus, opened, analyzing, published, resolved, false_positive, deleted, IncidentRow,
  AlertRow, Tables,
}
use valaf.Store.Sql.{Conn, Sql, Query, exec, transaction, read, write, one_row}
use valaf.Store.Jobs.{new_job, insert_job}

-- `activeStatuses`
abbrev pub is_active : IncidentStatus → Bool
is_active opened = true
is_active analyzing = true
is_active published = true
is_active _ = false

-- the WHERE clause of the lookup
unfoldable pub absorbs : String → Time → IncidentRow → Bool
absorbs key since i = (i.grouping_key == key) && (is_active i.status && ltb since i.opened_at)

abbrev pub later_opened : IncidentRow → Option IncidentRow → Option IncidentRow
later_opened i none = some i
later_opened i (some j) = if ltb i.opened_at j.opened_at then some j else some i

-- ORDER BY opened_at DESC LIMIT 1
unfoldable pub latest : List IncidentRow → Option IncidentRow
latest [] = none
latest (i ∷ rest) = later_opened i (latest rest)

abbrev pub is_level : String → Bool
is_level s = (s == "high") || (s == "critical")

abbrev pub new_incident : Time → ℕ → AlertBatch → String → IncidentRow
new_incident now id batch severity = record {
  id = id;
  title = batch.title;
  status = opened;
  severity = severity;
  grouping_key = batch.grouping_key;
  entity_bag = batch.entity_bag;
  triage_verdict = none;
  opened_at = now;
  published_at = none;
  resolved_at = none;
  deleted_at = none;
}

-- the INSERT, with the cast of `severity` to its enum
unfoldable pub insert_incident : Time → AlertBatch → String → Query ℕ
insert_incident now batch severity t =
    if is_level severity
    then ok (
      t.next_id,
      record t {
        next_id = suc t.next_id;
        incidents = t.incidents ++ new_incident now t.next_id batch severity ∷ [];
      },
    )
    else err constraint

unfoldable pub lookup_incident : AlertBatch → Time → Query (Option IncidentRow)
unfolding absorbs latest
lookup_incident batch since =
    read (λ t. latest (select (absorbs batch.grouping_key since) t.incidents))

unfoldable pub create_unless : Time → AlertBatch → String → Option IncidentRow → Sql (ℕ × Bool)
unfolding insert_incident
create_unless now batch severity (some i) = pure (i.id, false)
create_unless now batch severity none = do
  id ← exec (insert_incident now batch severity)
  pure (id, true)

unfoldable pub find_or_create : Time → AlertBatch → String → Time → Sql (ℕ × Bool)
unfolding lookup_incident create_unless
find_or_create now batch severity since = do
  found ← exec (lookup_incident batch since)
  create_unless now batch severity found

abbrev pub is_alert : ℕ → String → AlertRow → Bool
is_alert incident_id fingerprint r = eqb r.incident_id incident_id && (r.fingerprint == fingerprint)

abbrev pub or_object : RawMessage → RawMessage
or_object raw = if raw == "" then "{}" else raw

abbrev pub new_alert : Time → ℕ → String → Alert → AlertRow
new_alert now incident_id source a = record {
  incident_id = incident_id;
  source = source;
  fingerprint = a.fingerprint;
  severity = a.severity;
  labels = a.labels;
  annotations = a.annotations;
  raw_payload = or_object a.raw;
  starts_at = a.starts_at;
  ends_at = a.ends_at;
  received_at = now;
}

-- the DO UPDATE SET of the upsert: the source and the start of the first sight stay
abbrev pub refresh : Time → Alert → AlertRow → AlertRow
refresh now a r = record r {
  severity = a.severity;
  labels = a.labels;
  annotations = a.annotations;
  raw_payload = or_object a.raw;
  ends_at = a.ends_at;
  received_at = now;
}

unfoldable pub upsert_row : Time → ℕ → String → Alert → List AlertRow → List AlertRow
upsert_row now incident_id source a rows =
    if any (is_alert incident_id a.fingerprint) rows
    then update (is_alert incident_id a.fingerprint) (refresh now a) rows
    else rows ++ new_alert now incident_id source a ∷ []

-- the cast to the enum `alert_source`
abbrev pub is_alert_source : String → Bool
is_alert_source s =
    (s == "alertmanager")
    || ((s == "grafana") || ((s == "datadog") || ((s == "newrelic") || (s == "generic"))))

unfoldable pub write_alert : Time → ℕ → String → Alert → Query Unit
unfolding upsert_row
write_alert now incident_id source a t =
    if is_alert_source source
    then ok (tt, record t { alerts = upsert_row now incident_id source a t.alerts })
    else err constraint

unfoldable pub upsert_alert : Time → ℕ → String → Alert → Sql Unit
unfolding write_alert
upsert_alert now incident_id source a = exec (write_alert now incident_id source a)

-- the loop over the alerts
unfoldable pub upsert_alerts : Time → ℕ → String → List Alert → Sql Unit
upsert_alerts now incident_id source [] = pure tt
upsert_alerts now incident_id source (a ∷ rest) = do
  upsert_alert now incident_id source a
  upsert_alerts now incident_id source rest

abbrev pub enqueue_if : Bool → Time → ℕ → Sql Unit
enqueue_if true now id = exec (insert_job now "collect" id)
enqueue_if false now id = pure tt

-- what follows the lookup
unfoldable pub store_alerts : Time → AlertBatch → ℕ × Bool → Sql IngestOutcome
unfolding upsert_alerts insert_job
store_alerts now batch (id, created) = do
  upsert_alerts now id batch.source batch.alerts
  enqueue_if created now id
  pure (record { incident_id = id; created = created; alerts = length batch.alerts })

unfoldable pub ingest_body : Time → AlertBatch → String → Time → Sql IngestOutcome
unfolding find_or_create store_alerts
ingest_body now batch severity since = do
  found ← find_or_create now batch severity since
  store_alerts now batch found

unfoldable pub ingest_batch : Time → AlertBatch → String → Time → Sql IngestOutcome
unfolding ingest_body
ingest_batch now batch severity since = transaction (ingest_body now batch severity since)

-- the store as the port of the core
abbrev pub incident_repo : Time → IncidentRepository Conn
incident_repo now = record { ingest_batch = ingest_batch now }

-- `min(starts_at)` over the alerts of an incident
abbrev pub earlier : Option Time → Option Time → Option Time
earlier none b = b
earlier (some a) none = some a
earlier (some a) (some b) = if ltb b a then some b else some a

unfoldable pub min_start : List AlertRow → Option Time
min_start [] = none
min_start (a ∷ rest) = earlier a.starts_at (min_start rest)

unfoldable pub put_all : Map String → Map String → Map String
put_all m [] = m
put_all m ((k, v) ∷ rest) = put_all (put m k v) rest

-- the loop that merges labels and annotations
unfoldable pub merge_annotations : Map String → List AlertRow → Map String
unfolding put_all
merge_annotations m [] = m
merge_annotations m (a ∷ rest) = merge_annotations (put_all (put_all m a.labels) a.annotations) rest

abbrev pub add_name : String → List String → List String
add_name n names = if any (λ m. m == n) names then names else n ∷ names

abbrev pub add_label : Option String → List String → List String
add_label none names = names
add_label (some n) names = add_name n names

-- array_agg(DISTINCT labels->>'alertname') FILTER (WHERE ... IS NOT NULL)
unfoldable pub alertnames_of : List AlertRow → List String
unfolding find
alertnames_of [] = []
alertnames_of (a ∷ rest) = add_label (find a.labels "alertname") (alertnames_of rest)

abbrev pub or_else : Option Time → Time → Time
or_else none t = t
or_else (some a) t = a

-- `now` is `time.Now()`; an alert that starts later gives a window that ends before it
unfoldable pub target_window : Time → Time → TimeWindow
target_window at now =
    let end = at + 15 * 60 in
    record { start = at - 15 * 60; end = if ltb now end then now else end; step = 30 }

abbrev pub alerts_of : ℕ → Tables → List AlertRow
alerts_of id t = select (λ (a : AlertRow). eqb a.incident_id id) t.alerts

abbrev pub find_incident : ℕ → Tables → Option IncidentRow
find_incident id t = first (select (λ (i : IncidentRow). eqb i.id id) t.incidents)

abbrev pub row_query : {A : Type 0} → (Tables → Option A) → Query A
row_query f t = elim (f t) [ none ↦ err no_rows | some a ↦ ok (a, t) ]

-- the row of the first query: the incident, its earliest start and its alertnames
pub record TargetRow : Type 0 where
  pub incident : IncidentRow
  pub anchor : Option Time
  pub alertnames : List String

find_target : ℕ → Tables → Option TargetRow
unfolding min_start alertnames_of
find_target id t = elim (find_incident id t) [
  | none ↦ none
  | some i ↦ some (record {
    incident = i;
    anchor = min_start (alerts_of id t);
    alertnames = alertnames_of (alerts_of id t);
  })
]

target_of : Time → TargetRow → List AlertRow → CollectTarget
unfolding target_window merge_annotations
target_of now r alerts = record {
  incident_id = r.incident.id;
  title = r.incident.title;
  alertnames = r.alertnames;
  entity_bag = r.incident.entity_bag;
  annotations = merge_annotations [] alerts;
  window = target_window (or_else r.anchor r.incident.opened_at) now;
}

unfoldable pub load_collect_target : Time → ℕ → Sql CollectTarget
unfolding find_target target_of
load_collect_target now id = do
  r ← exec (row_query (find_target id))
  alerts ← exec (read (alerts_of id))
  pure (target_of now r alerts)
