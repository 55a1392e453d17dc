-- ===== src/Core/Intake.antt =====
-- internal/core/intake.go: normalize, pre-filter, correlate, store.
pub mod Gate
use valaf.Common.{
  ℕ, ◌-◌, ◌*◌, String, Bool, true, false, ◌||◌, List, [], ◌∷◌, leb, eqb, not, if◌then◌else◌,
}
use valaf.Common.Effect.{Error, Result, ok, err, bad_payload, Eff, pure, throw, ◌>>=◌}
use valaf.Core.Severity.{Severity, sev_unknown, sev_high, sev_critical, at_least}
use valaf.Core.Alert.{AlertBatch, Time, max_severity}

-- `Parse` of an adapter, implemented for each source outside the core
pub record IntakeAdapter : Type 0 where
  pub source : String
  pub parse : String → Result AlertBatch

pub record IngestOutcome : Type 0 where
  pub incident_id : ℕ
  pub created : Bool
  pub alerts : ℕ

-- the persistence port; `S` is the state behind it
pub record IncidentRepository (S : Type 0) : Type 0 where
  pub ingest_batch : AlertBatch → String → Time → Eff S IngestOutcome

pub record Service (S : Type 0) : Type 0 where
  pub repo : IncidentRepository S
  pub threshold : Severity
  pub window : Time

-- `Dropped` with its reason, or the outcome of the repository
pub data IngestResult : Type 0 where
  dropped : String → IngestResult
  stored : IngestOutcome → IngestResult

abbrev pub level_of : Severity → String
level_of sev = if leb sev_critical sev then "critical" else "high"

module _ {S : Type 0} where
  abbrev pub with_threshold : Severity → Service S → Service S
  with_threshold t svc = record svc { threshold = t }

  abbrev pub with_window : Time → Service S → Service S
  with_window d svc = record svc { window = d }

  apply_options : List (Service S → Service S) → Service S → Service S
  apply_options [] svc = svc
  apply_options (o ∷ rest) svc = apply_options rest (o svc)

  unfoldable pub new_service : IncidentRepository S → List (Service S → Service S) → Service S
  unfolding apply_options
  new_service repo opts =
      apply_options opts (record { repo = repo; threshold = sev_high; window = 6 * 3600 })

  -- the pre-filter of `Ingest`
  abbrev pub is_noise : Service S → Severity → Bool
  is_noise svc sev = eqb sev sev_unknown || not (at_least sev svc.threshold)

  store_batch : Service S → AlertBatch → Time → Eff S IngestResult
  store_batch svc batch now = do
    out ← svc.repo.ingest_batch batch (level_of (max_severity batch)) (now - svc.window)
    pure (stored out)

  admit : Service S → AlertBatch → Time → Eff S IngestResult
  unfolding store_batch
  admit svc batch now =
      if is_noise svc (max_severity batch)
      then pure (dropped "severity below threshold")
      else store_batch svc batch now

  -- `errors.Is(err, ErrBadPayload)` holds of every error of the adapter
  admit_parsed : Service S → Result AlertBatch → Time → Eff S IngestResult
  unfolding admit
  admit_parsed svc (err e) now = throw bad_payload
  admit_parsed svc (ok batch) now = admit svc batch now

  -- `now` is what `time.Now()` returns
  unfoldable pub ingest : Service S → IntakeAdapter → Time → String → Eff S IngestResult
  unfolding admit_parsed
  ingest svc adapter now body = admit_parsed svc (adapter.parse body) now
