-- ===== src/Core/Alert/Bounds.antt =====
-- The severity of a batch, as the loop of `MaxSeverity` finds it.
use valaf.Common.{
  ◌≤◌, ◌≡◌, refl, ◌==◌, ltb, false, Bool-cases, ◌⊎◌, inl, inr, List, [], ◌∷◌, All, In, arith,
}
use valaf.Core.Severity.{Severity, sev_unknown, parse_severity}
use valaf.Core.Alert.{Alert, AlertBatch, raise_to, max_from, max_severity}

abbrev pub IsFiring : Alert → Type 0
IsFiring a = (a.status == "resolved") ≡ false

-- `m` is what the loop starts from.
max_from-ge : (m : Severity) (alerts : List Alert) → m ≤ max_from m alerts
unfolding max_from
max_from-ge m [] = omega arith
max_from-ge m (a ∷ rest) = ground (arith, max_from-ge (raise_to m a) rest)

max_from-upper :
    (m : Severity) (alerts : List Alert)
    → All (λ a. IsFiring a → parse_severity a.severity ≤ max_from m alerts) alerts
unfolding max_from
max_from-upper m [] = tt
max_from-upper m (a ∷ rest) =
    (λ firing. ground (arith, max_from-ge (raise_to m a) rest), max_from-upper (raise_to m a) rest)

-- The severity is that of a firing alert of the list, or where the loop started.
abbrev Attained : Severity → Severity → List Alert → Type 0
Attained s m alerts =
    (s ≡ m) ⊎ ((a : Alert) × In a alerts × IsFiring a × (parse_severity a.severity ≡ s))

Attained-step :
    (s m : Severity) (a : Alert) (rest : List Alert)
    → Attained s (raise_to m a) rest
    → Attained s m (a ∷ rest)
Attained-step s m a rest (inr (b, i, f, e)) = inr (b, inr i, f, e)
Attained-step s m a rest (inl e) = elim (Bool-cases (a.status == "resolved")) [
  | inl r ↦ inl (ground arith)
  | inr f ↦ elim (Bool-cases (ltb m (parse_severity a.severity))) [
    | inl l ↦ inr (a, inl refl, f, ground arith)
    | inr l ↦ inl (ground arith)
  ]
]

max_from-Attained : (m : Severity) (alerts : List Alert) → Attained (max_from m alerts) m alerts
unfolding max_from
max_from-Attained m [] = inl refl
max_from-Attained m (a ∷ rest) =
    Attained-step (max_from (raise_to m a) rest) m a rest (max_from-Attained (raise_to m a) rest)

-- The severity of a batch is at least that of each of its firing alerts, and it is either unknown
-- or that of one of them: resolved alerts count for nothing.
pub max_severity_least_bound :
    (b : AlertBatch)
    → All (λ a. IsFiring a → parse_severity a.severity ≤ max_severity b) b.alerts
      × ((max_severity b ≡ sev_unknown)
          ⊎ ((a : Alert) × In a b.alerts
              × IsFiring a
              × (parse_severity a.severity ≡ max_severity b)))
unfolding max_severity
max_severity_least_bound b =
    (max_from-upper sev_unknown b.alerts, max_from-Attained sev_unknown b.alerts)
