-- ===== src/Examples/Core.antt =====
-- The core on concrete data.
use valaf.Common.{
  ℕ, ◌+◌, ◌≤◌, ◌≡◌, refl, true, false, ◌==◌, ◌⊎◌, Option, none, some, [], ◌∷◌, All, In, map, select,
  count, not, length, if◌then◌else◌,
}
use valaf.Common.Maps.{is_set}
use valaf.Common.Effect.{Error, ok, err, message, bad_payload}
use valaf.Core.Severity.{sev_unknown, parse_severity}
use valaf.Core.Alert.{Alert, AlertBatch, max_severity}
use valaf.Core.Alert.Bounds.{IsFiring, max_severity_least_bound}
use valaf.Core.Intake.{IntakeAdapter, IncidentRepository, Service, ingest}
use valaf.Core.Intake.Gate.{Treated, ingest_outcomes}
use valaf.Core.Analyze.{
  AnalysisRecord, AiProvider, AnalysisRepository, filter_refs, enforce_citations, empty_report,
  normalize_verdict, analyze,
}
use valaf.Core.Analyze.Citations.{
  trim_observation, is_cited, trim_hypothesis, is_supported, rerank, dangling_cites,
  dangling_evidence, enforce_citations_lem,
}
use valaf.Core.Analyze.Grounded.{
  IsCited, IsSupported, Ranked, enforce_citations-IsGrounded, enforce_citations-enforce_citations,
}
use valaf.Core.Analyze.Service.{IsPublishable, analyze_saves}
use valaf.Core.Notify.{Notification, NotificationChannel, NotificationRepo, notify}
use valaf.Core.Notify.Gate.{Dispatched, Unrecorded, notify_outcomes, notify-eq-err}
use valaf.Examples.Data.{batch, answer, request, valid}

max_severity_of_batch : max_severity batch ≡ 4
unfolding max_severity parse_severity
max_severity_of_batch = refl

max_severity_least_bound_example :
    All (λ a. IsFiring a → parse_severity a.severity ≤ max_severity batch) batch.alerts
    × ((max_severity batch ≡ sev_unknown)
        ⊎ ((a : Alert) × In a batch.alerts
            × IsFiring a
            × (parse_severity a.severity ≡ max_severity batch)))
max_severity_least_bound_example = max_severity_least_bound batch

-- a repository that counts the batches
abbrev counting : IncidentRepository ℕ
counting = record {
  ingest_batch = λ b level since n.
      (ok (record { incident_id = n; created = true; alerts = length b.alerts }), n + 1);
}

abbrev service : Service ℕ
service = record { repo = counting; threshold = 3; window = 60 }

abbrev adapter : IntakeAdapter
adapter = record {
  source = "alertmanager";
  parse = λ body. if body == "{}" then ok batch else err (message "unexpected end");
}

ingest_outcomes_example :
    ((e : Error) × (adapter.parse "{}" ≡ err e)
      × (ingest service adapter 100 "{}" 7 ≡ (err bad_payload, 7)))
    ⊎ ((b : AlertBatch) × (adapter.parse "{}" ≡ ok b)
        × Treated service b 100 7 (ingest service adapter 100 "{}" 7))
ingest_outcomes_example = ingest_outcomes service adapter 100 "{}" 7

answer_is_cut :
    (enforce_citations answer valid).1
    ≡ record { dropped_observations = 1; dropped_hypotheses = 1; dropped_refs = 2 }
unfolding enforce_citations filter_refs is_set
answer_is_cut = refl

enforce_citations_example : enforce_citations answer valid ≡ (
  record answer {
    observations = map (trim_observation valid) (select (is_cited valid) answer.observations);
    hypotheses =
        rerank valid 0
          (map (trim_hypothesis valid) (select (is_supported valid) answer.hypotheses));
  },
  record {
    dropped_observations = count (λ o. not (is_cited valid o)) answer.observations;
    dropped_hypotheses = count (λ h. not (is_supported valid h)) answer.hypotheses;
    dropped_refs =
        dangling_cites valid answer.observations + dangling_evidence valid answer.hypotheses;
  },
)
enforce_citations_example = enforce_citations_lem valid answer

enforce_citations-IsGrounded_example :
    All (IsCited valid) (enforce_citations answer valid).0.observations
    × All (IsSupported valid) (enforce_citations answer valid).0.hypotheses
    × Ranked 0 (enforce_citations answer valid).0.hypotheses
enforce_citations-IsGrounded_example = enforce_citations-IsGrounded valid answer

enforce_citations-enforce_citations_example :
    enforce_citations (enforce_citations answer valid).0 valid
    ≡ ((enforce_citations answer valid).0, empty_report)
enforce_citations-enforce_citations_example = enforce_citations-enforce_citations valid answer

verdict_of_noise : normalize_verdict " Noise " ≡ "likely_noise"
unfolding normalize_verdict
verdict_of_noise = refl

-- a repository that keeps the last record
abbrev keeping : AnalysisRepository (Option AnalysisRecord)
keeping = record {
  load_analysis_request = λ id s. (ok request, s);
  save_analysis = λ id rec s. (ok tt, some rec);
}

abbrev provider : AiProvider (Option AnalysisRecord)
provider = record { name = "openai"; model = "m"; analyze = λ req s. (ok answer, s) }

analyze_saves_example :
    (rec : AnalysisRecord) × (s2 : Option AnalysisRecord) × (analyze (some provider) keeping 5 none
      ≡ keeping.save_analysis 5 rec s2)
    × IsPublishable request rec
analyze_saves_example = analyze_saves (some provider) keeping 5 none refl

abbrev note : Notification
note = record {
  incident_id = 5;
  title = "Disk full";
  severity = "critical";
  verdict = "";
  summary = "";
  top_hypothesis = "";
}

-- a repository that counts what it records, and one that cannot record
abbrev recording : NotificationRepo ℕ
recording = record {
  load_notification = λ id n. (ok note, n);
  record_outcome = λ id channel target status reason n. (ok tt, n + 1);
}

abbrev refusing : NotificationRepo ℕ
refusing = record {
  load_notification = λ id n. (ok note, n);
  record_outcome = λ id channel target status reason n. (err (message "refused"), n);
}

-- channels that send, over the number of messages sent, and that fail
abbrev sending : NotificationChannel ℕ
sending = record { name = "slack"; send = λ m n. (ok tt, n + 10) }

abbrev failing : NotificationChannel ℕ
failing = record { name = "email"; send = λ m n. (err (message "timeout"), n) }

two_channels :
    notify recording (sending ∷ failing ∷ []) 5 0
    ≡ (ok (record { sent = 1; failed = 1; quiet = false }), 12)
unfolding notify
two_channels = refl

notify_outcomes_example :
    (n : Notification) × (s1 : ℕ) × (recording.load_notification 5 0 ≡ (ok n, s1))
    × Dispatched recording
        (sending ∷ failing ∷ [])
        5
        n
        s1
        (record { sent = 1; failed = 1; quiet = false })
        12
notify_outcomes_example = notify_outcomes recording (sending ∷ failing ∷ []) 5 0 two_channels

unrecorded : notify refusing (sending ∷ failing ∷ []) 5 0 ≡ (err (message "refused"), 10)
unfolding notify
unrecorded = refl

notify-eq-err_example :
    (refusing.load_notification 5 0 ≡ (err (message "refused"), 10))
    ⊎ Unrecorded refusing 5 (message "refused") 10
notify-eq-err_example = notify-eq-err refusing (sending ∷ failing ∷ []) 5 0 unrecorded
