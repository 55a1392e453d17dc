-- ===== src/Core/Intake/Gate.antt =====
-- The severity gate of the intake: what is dropped, and what reaches the repository.
use valaf.Common.{
  leb, ◌-◌, ◌≤◌, ◌<◌, String, ◌≡◌, refl, Bool-cases, ◌⊎◌, inl, inr, List, [], ◌∷◌, All, In, arith,
}
use valaf.Common.Effect.{Error, Result, ok, err, bad_payload, ◌>>=◌}
use valaf.Core.Severity.{Severity, sev_unknown, sev_critical, parse_severity}
use valaf.Core.Alert.{Alert, AlertBatch, Time, max_severity}
use valaf.Core.Alert.Bounds.{IsFiring, max_severity_least_bound}
use valaf.Core.Intake.{
  IntakeAdapter, Service, IngestResult, dropped, stored, is_noise, level_of, store_batch, admit,
  ingest,
}

-- the gate on one severity
abbrev pub IsBelow : Severity → Severity → Type 0
IsBelow threshold sev = (sev ≡ sev_unknown) ⊎ (sev < threshold)

All-IsBelow :
    (t m : Severity) (alerts : List Alert)
    → IsBelow t m
    → All (λ a. IsFiring a → parse_severity a.severity ≤ m) alerts
    → All (λ a. IsFiring a → IsBelow t (parse_severity a.severity)) alerts
All-IsBelow t m [] h b = tt
All-IsBelow t m (a ∷ rest) h b = (λ f. ground (arith, b.0 f), All-IsBelow t m rest h b.1)

-- some firing alert is at least that severe
abbrev pub SomeAtLeast : Severity → List Alert → Type 0
SomeAtLeast t alerts = (a : Alert) × In a alerts × IsFiring a × (t ≤ parse_severity a.severity)

abbrev pub AllBelow : Severity → List Alert → Type 0
AllBelow t alerts = All (λ a. IsFiring a → IsBelow t (parse_severity a.severity)) alerts

-- The level of a batch: "critical" for a critical alert among the firing ones, else "high".
abbrev pub IsLevel : List Alert → String → Type 0
IsLevel alerts level =
    ((level ≡ "critical") × SomeAtLeast sev_critical alerts)
    ⊎ ((level ≡ "high") × AllBelow sev_critical alerts)

SomeAtLeast-max :
    (t : Severity) (b : AlertBatch)
    → 0 < max_severity b
    → t ≤ max_severity b
    → SomeAtLeast t b.alerts
SomeAtLeast-max t b known h = go (max_severity_least_bound b).1
  where
    go :
        (max_severity b ≡ sev_unknown)
          ⊎ ((a : Alert) × In a b.alerts
              × IsFiring a
              × (parse_severity a.severity ≡ max_severity b))
        → SomeAtLeast t b.alerts
    go (inl e) = absurd (omega arith)
    go (inr (a, i, f, e)) = (a, i, f, omega arith)

level_of-IsLevel :
    (b : AlertBatch) → 0 < max_severity b → IsLevel b.alerts (level_of (max_severity b))
level_of-IsLevel b known = elim (Bool-cases (leb sev_critical (max_severity b))) [
  | inl e ↦ inl (rw e, SomeAtLeast-max sev_critical b known (ground arith))
  | inr e ↦ inr (
    rw e,
    All-IsBelow sev_critical (max_severity b) b.alerts (inr (ground arith))
        (max_severity_least_bound b).0,
  )
]

module _ {S : Type 0} (svc : Service S) where
  -- how a batch was treated
  abbrev pub Treated : AlertBatch → Time → S → Result IngestResult × S → Type 0
  Treated b now s r =
      (AllBelow svc.threshold b.alerts × (r ≡ (ok (dropped "severity below threshold"), s)))
      ⊎ ((level : String) × SomeAtLeast svc.threshold b.alerts
          × IsLevel b.alerts level
          × (r
              ≡ (svc.repo.ingest_batch b level (now - svc.window) >>= λ out.
                    λ t. (ok (stored out), t))
                  s))

  admit-Treated : (b : AlertBatch) (now : Time) (s : S) → Treated b now s (admit svc b now s)
  unfolding admit store_batch
  admit-Treated b now s = elim (Bool-cases (is_noise svc (max_severity b))) [
    | inl e ↦ inl (
      All-IsBelow svc.threshold (max_severity b) b.alerts (ground arith)
          (max_severity_least_bound b).0,
      rw e,
    )
    | inr e ↦ inr (
      level_of (max_severity b),
      SomeAtLeast-max svc.threshold b (ground arith) (ground arith),
      level_of-IsLevel b (ground arith),
      rw e,
    )
  ]

  ingest-parsed :
      (adapter : IntakeAdapter) (now : Time) (body : String) (s : S) {b : AlertBatch}
      → adapter.parse body ≡ ok b
      → ingest svc adapter now body s ≡ admit svc b now s
  unfolding ingest
  ingest-parsed adapter now body s p = rw p

  -- The three outcomes of a webhook body. One that does not parse is a bad payload. A batch none of
  -- whose firing alerts has a known severity at the threshold or above is dropped. In both cases
  -- nothing is stored. Any other batch has such an alert, and goes to the repository with the level
  -- of its worst firing alert and the cutoff `now - window`, the outcome being the repository's.
  pub ingest_outcomes :
      (adapter : IntakeAdapter) (now : Time) (body : String) (s : S)
      → ((e : Error) × (adapter.parse body ≡ err e)
          × (ingest svc adapter now body s ≡ (err bad_payload, s)))
        ⊎ ((b : AlertBatch) × (adapter.parse body ≡ ok b)
            × Treated b now s (ingest svc adapter now body s))
  ingest_outcomes adapter now body s = go (adapter.parse body) refl
    where
      go :
          (r : Result AlertBatch)
          → adapter.parse body ≡ r
          → ((e : Error) × (adapter.parse body ≡ err e)
              × (ingest svc adapter now body s ≡ (err bad_payload, s)))
            ⊎ ((b : AlertBatch) × (adapter.parse body ≡ ok b)
                × Treated b now s (ingest svc adapter now body s))
      go (err e) p = inl (e, p, unfold ingest in rw p)
      go (ok b) p = inr (b, p, rw (ingest-parsed adapter now body s p) (admit-Treated b now s))
