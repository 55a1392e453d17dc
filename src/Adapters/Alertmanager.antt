-- ===== src/Adapters/Alertmanager.antt =====
-- internal/adapters/alertmanager/alertmanager.go: a webhook of Alertmanager as a batch of alerts.
pub mod Keys
pub mod Entities
use Prim.Native.String.{◌++◌}
use valaf.Common.{
  ℕ, String, Bool, ◌||◌, Option, none, some, List, [], ◌∷◌, map, eqb, leb, ◌==◌, if◌then◌else◌,
}
use valaf.Common.Maps.{Map, get, put}
use valaf.Common.Order.{sort_texts}
use valaf.Common.Effect.{Result, ok, err, message}
use valaf.Core.Alert.{RawMessage, Time, Alert, AlertBatch}
use valaf.Core.Intake.{IntakeAdapter}

-- a `time.Time` of a payload: the instant, 0 for the zero time and what is before it, and the year in
-- the zone of the payload
pub record Stamp : Type 0 where
  pub instant : Time
  pub year : ℕ

pub record AmAlert : Type 0 where
  pub status : String
  pub labels : Map String
  pub annotations : Map String
  pub starts_at : Stamp
  pub ends_at : Stamp
  pub generator_url : String
  pub fingerprint : String

pub record Webhook : Type 0 where
  pub version : String
  pub group_key : String
  pub status : String
  pub receiver : String
  pub group_labels : Map String
  pub common_labels : Map String
  pub common_annotations : Map String
  pub alerts : List AmAlert

-- `a` unless it is empty
abbrev pub or_else : String → String → String
or_else a b = if a == "" then b else a

-- the alert name, then a common summary, then the group key
unfoldable pub title : Webhook → String
unfolding get
title wh = or_else (get wh.group_labels "alertname") (
    or_else (get wh.common_labels "alertname")
      (or_else (get wh.common_annotations "summary") (or_else wh.group_key "incident")))

-- `pick`: the entities and the labels that are tried for each
abbrev pub pick : List (String × List String)
pick =
    ("service", "service" ∷ "service_name" ∷ "job" ∷ "app" ∷ [])
    ∷ ("host", "instance" ∷ "host" ∷ "hostname" ∷ "nodename" ∷ "node" ∷ [])
    ∷ ("pod", "pod" ∷ "pod_name" ∷ [])
    ∷ ("env", "env" ∷ "environment" ∷ "deployment_environment" ∷ [])
    ∷ []

-- the inner loop: the first candidate that is set
unfoldable pub first_label : Map String → List String → String
unfolding get
first_label labels [] = ""
first_label labels (c ∷ rest) = or_else (get labels c) (first_label labels rest)

unfoldable pub set_entity : Map String → String → String → Map String
unfolding put
set_entity bag key v = if v == "" then bag else put bag key v

unfoldable pub entities_from : List (String × List String) → Map String → Map String → Map String
unfolding first_label set_entity
entities_from [] labels bag = bag
entities_from ((key, candidates) ∷ rest) labels bag =
    entities_from rest labels (set_entity bag key (first_label labels candidates))

unfoldable pub entities : Map String → Map String
unfolding entities_from
entities labels = entities_from pick labels []

-- the two loops of `merge`: what comes later wins
unfoldable pub put_all : Map String → Map String → Map String
unfolding put
put_all out [] = out
put_all out ((k, v) ∷ rest) = put_all (put out k v) rest

unfoldable pub merge : Map String → Map String → Map String
unfolding put_all
merge a b = put_all (put_all [] a) b

-- the text that is hashed: the pairs in the order of their keys
unfoldable pub pairs_text : Map String → List String → String
unfolding get
pairs_text labels [] = ""
pairs_text labels (k ∷ rest) = k ++ ("=" ++ (get labels k ++ ("," ++ pairs_text labels rest)))

unfoldable pub key_text : Map String → String
unfolding pairs_text sort_texts
key_text labels = pairs_text labels (sort_texts (map (λ p. p.0) labels))

unfoldable pub non_zero : Stamp → Option Time
non_zero t = if eqb t.instant 0 || leb t.year 1 then none else some t.instant

-- `digest` is SHA-256 in hexadecimal
unfoldable pub derive_key : (String → String) → Map String → String
unfolding key_text
derive_key digest labels = digest (key_text labels)

-- `decode` and `marshal` are encoding/json
module _ (digest : String → String) (decode : String → Option Webhook)
    (marshal : AmAlert → RawMessage) where
  unfoldable pub alert_of : AmAlert → Alert
  unfolding derive_key non_zero get
  alert_of al = record {
    fingerprint = or_else al.fingerprint (derive_key digest al.labels);
    severity = get al.labels "severity";
    status = al.status;
    labels = al.labels;
    annotations = al.annotations;
    starts_at = non_zero al.starts_at;
    ends_at = non_zero al.ends_at;
    raw = marshal al;
  }

  unfoldable pub batch_of : Webhook → AlertBatch
  unfolding alert_of derive_key title entities merge
  batch_of wh = record {
    source = "alertmanager";
    grouping_key = or_else wh.group_key (derive_key digest wh.group_labels);
    title = title wh;
    entity_bag = entities (merge wh.common_labels wh.group_labels);
    alerts = map alert_of wh.alerts;
  }

  unfoldable pub parse_alerts : List AmAlert → Webhook → Result AlertBatch
  unfolding batch_of
  parse_alerts [] wh = err (message "alertmanager webhook has no alerts")
  parse_alerts (a ∷ rest) wh = ok (batch_of wh)

  unfoldable pub parse_webhook : Option Webhook → Result AlertBatch
  unfolding parse_alerts
  parse_webhook none = err (message "decode alertmanager webhook")
  parse_webhook (some wh) = parse_alerts wh.alerts wh

  unfoldable pub parse : String → Result AlertBatch
  unfolding parse_webhook
  parse body = parse_webhook (decode body)

  abbrev pub adapter : IntakeAdapter
  unfolding parse
  adapter = record { source = "alertmanager"; parse = parse }
