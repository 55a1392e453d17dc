-- ===== src/Examples/Adapters.antt =====
-- The adapters on concrete data.
use valaf.Common.{◌≡◌, refl, sym, Bool-cases, inl, inr, ◌==◌, eq_iff, some, Option, String, [], ◌∷◌}
use mathlib.Core.List.Perm
use valaf.Common.Maps.{Map, find, get}
use valaf.Common.Order.{sort_texts, less_text}
use valaf.Common.Effect.{ok}
use valaf.Core.Alert.{AlertBatch}
use valaf.Adapters.Alertmanager.{AmAlert, Webhook, key_text, derive_key, batch_of, parse}
use valaf.Adapters.Alertmanager.Keys.{IsSameMap, derive_key-IsSameMap}
use valaf.Adapters.Alertmanager.Entities.{
  label_of, candidates, chosen, unless_empty, parse-entity_bag,
}

abbrev am_alert : AmAlert
am_alert = record {
  status = "firing";
  labels = ("severity", "page") ∷ [];
  annotations = [];
  starts_at = record { instant = 63000000000; year = 2026 };
  ends_at = record { instant = 0; year = 1 };
  generator_url = "";
  fingerprint = "f1";
}

abbrev webhook : Webhook
webhook = record {
  version = "4";
  group_key = "";
  status = "firing";
  receiver = "valaf";
  group_labels = ("instance", "db1") ∷ [];
  common_labels = ("instance", "db2") ∷ ("job", "node") ∷ [];
  common_annotations = [];
  alerts = am_alert ∷ [];
}

abbrev hash : String → String
hash s = s

abbrev decode : String → Option Webhook
decode body = some webhook

abbrev marshal : AmAlert → String
marshal a = "{}"

abbrev parsed : AlertBatch
parsed = batch_of hash decode marshal webhook

parses : parse hash decode marshal "{}" ≡ ok parsed
unfolding parse
parses = refl

parse-entity_bag_example :
    find parsed.entity_bag "host" ≡ unless_empty (chosen (label_of webhook) (candidates "host"))
unfolding find
parse-entity_bag_example =
    parse-entity_bag hash decode marshal "{}" webhook parsed "host" refl parses (refl, (refl, tt))
      (refl, tt)

-- the group's label wins
host_of_group : unless_empty (chosen (label_of webhook) (candidates "host")) ≡ some "db1"
unfolding find
host_of_group = refl

abbrev labels : Map String
labels = ("b", "2") ∷ ("a", "1") ∷ []

abbrev other_labels : Map String
other_labels = ("a", "1") ∷ ("b", "2") ∷ []

same_labels : IsSameMap labels other_labels
unfolding get find
same_labels = (
  Perm.swap "a" "b" [],
  λ k. elim (Bool-cases ("b" == k)) [
    | inl e ↦ rw (sym ((eq_iff "b" k).0 e)) refl
    | inr e ↦ rw (e, get) refl
  ],
)

derive_key-IsSameMap_example : derive_key hash labels ≡ derive_key hash other_labels
derive_key-IsSameMap_example = derive_key-IsSameMap hash labels other_labels same_labels

-- two maps of labels with one text to hash
ambiguous : key_text (("a", "b,c=d") ∷ []) ≡ key_text (("a", "b") ∷ ("c", "d") ∷ [])
unfolding key_text sort_texts less_text get
ambiguous = refl
