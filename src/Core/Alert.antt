-- ===== src/Core/Alert.antt =====
-- internal/core/alert.go
pub mod Bounds
use valaf.Common.{ℕ, String, Option, List, [], ◌∷◌, ltb, ◌==◌, if◌then◌else◌}
use valaf.Common.Maps.{Map}
use valaf.Core.Severity.{Severity, sev_unknown, parse_severity}

-- A `json.RawMessage` is a text that the program stores and passes on.
abbrev pub RawMessage : Type 0
RawMessage = String

-- Instants and durations are counted in seconds, instants from Go's zero time (the year 1), so that
-- no subtraction of a duration that Go can hold goes below 0.
abbrev pub Time : Type 0
Time = ℕ

pub record Alert : Type 0 where
  pub fingerprint : String
  pub severity : String  -- the source's own label
  pub status : String  -- "firing" or "resolved"
  pub labels : Map String
  pub annotations : Map String
  pub starts_at : Option Time
  pub ends_at : Option Time
  pub raw : RawMessage

pub record AlertBatch : Type 0 where
  pub source : String
  pub grouping_key : String
  pub title : String
  pub entity_bag : Map String
  pub alerts : List Alert

-- the body of the loop of `MaxSeverity`, over its variable `max`
abbrev pub raise_to : Severity → Alert → Severity
raise_to m a =
    if a.status == "resolved"
    then m
    else let s = parse_severity a.severity in if ltb m s then s else m

unfoldable pub max_from : Severity → List Alert → Severity
max_from m [] = m
max_from m (a ∷ rest) = max_from (raise_to m a) rest

unfoldable pub max_severity : AlertBatch → Severity
unfolding max_from
max_severity b = max_from sev_unknown b.alerts
