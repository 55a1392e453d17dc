-- ===== src/Core/Notify.antt =====
-- internal/core/notify.go: the gate, and the fan-out to the channels. Each channel is tried once.
pub mod Gate
use valaf.Common.{ℕ, suc, String, Bool, true, false, List, [], ◌∷◌, ◌==◌, if◌then◌else◌}
use valaf.Common.Effect.{Error, Result, ok, err, Eff, pure, attempt, ◌>>=◌, ◌>>◌}

-- `IncidentURL` is set from the base URL when the notification is sent
pub record Notification : Type 0 where
  pub incident_id : ℕ
  pub title : String
  pub severity : String
  pub verdict : String
  pub summary : String
  pub top_hypothesis : String

pub record NotificationChannel (S : Type 0) : Type 0 where
  pub name : String
  pub send : Notification → Eff S Unit

pub record NotificationRepo (S : Type 0) : Type 0 where
  pub load_notification : ℕ → Eff S Notification
  -- incident, channel, target, status, reason
  pub record_outcome : ℕ → String → String → String → String → Eff S Unit

pub record NotifyResult : Type 0 where
  pub sent : ℕ
  pub failed : ℕ
  pub quiet : Bool

abbrev pub none_sent : NotifyResult
none_sent = record { sent = 0; failed = 0; quiet = false }

unfoldable pub should_notify : Notification → Bool
should_notify n =
    if n.verdict == "actionable" then true else if n.verdict == "likely_noise" then false else true

-- one channel's outcome, in the counters and as the status to be recorded
abbrev pub count_outcome : NotifyResult → Result Unit → NotifyResult
count_outcome res (ok _) = record res { sent = suc res.sent }
count_outcome res (err _) = record res { failed = suc res.failed }

abbrev pub status_of : Result Unit → String
status_of (ok _) = "sent"
status_of (err _) = "failed"

module _ {S : Type 0} where
  -- the loop over the channels; an error of the repository ends it
  unfoldable pub fan_out :
      NotificationRepo S
      → List (NotificationChannel S)
      → Notification
      → ℕ
      → NotifyResult
      → Eff S NotifyResult
  fan_out repo [] note incident_id res = pure res
  fan_out repo (ch ∷ rest) note incident_id res = do
    outcome ← attempt (ch.send note)
    repo.record_outcome incident_id ch.name "" (status_of outcome) "actionable"
    fan_out repo rest note incident_id (count_outcome res outcome)

  unfoldable pub stay_quiet : NotificationRepo S → ℕ → Eff S NotifyResult
  stay_quiet repo incident_id = do
    repo.record_outcome incident_id "gate" "" "quiet" "noise"
    pure (record none_sent { quiet = true })

  -- `Notify` of the service
  unfoldable pub notify : NotificationRepo S → List (NotificationChannel S) → ℕ → Eff S NotifyResult
  unfolding fan_out stay_quiet should_notify
  notify repo channels incident_id = do
    note ← repo.load_notification incident_id
    if should_notify note
        then fan_out repo channels note incident_id none_sent
        else stay_quiet repo incident_id
