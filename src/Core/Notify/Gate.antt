-- ===== src/Core/Notify/Gate.antt =====
-- What a dispatch counts, and when it stays quiet.
use mathlib.Core.Path.{subst}
use valaf.Common.{
  ℕ, ◌+◌, String, ◌≡◌, ◌≢◌, Bool, true, false, ◌==◌, Bool-cases, ◌⊎◌, inl, inr, List, [], ◌∷◌,
  length, arith, if◌then◌else◌, eq_iff,
}
use valaf.Common.Effect.{Error, ok, err, Eff, >>=-eq-ok, >>=-eq-err}
use valaf.Core.Notify.{
  Notification, NotificationChannel, NotificationRepo, NotifyResult, none_sent, should_notify,
  count_outcome, status_of, fan_out, stay_quiet, notify,
}

abbrev noisy : String → Bool
noisy v = if v == "actionable" then true else if v == "likely_noise" then false else true

module _ {S : Type 0} (repo : NotificationRepo S) where
  fan_out_counts :
      (channels : List (NotificationChannel S)) (note : Notification) (incident_id : ℕ)
      (res : NotifyResult) (s : S) {res' : NotifyResult} {s' : S}
      → fan_out repo channels note incident_id res s ≡ (ok res', s')
      → (res'.sent + res'.failed ≡ res.sent + res.failed + length channels)
        × (res'.quiet ≡ res.quiet)
  unfolding fan_out
  fan_out_counts [] note incident_id res s h = ground arith
  fan_out_counts (ch ∷ rest) note incident_id res s h =
      let (outcome, s1) = ch.send note s in
      let (_, s2, _, h') =
        >>=-eq-ok (repo.record_outcome incident_id ch.name "" (status_of outcome) "actionable")
          (λ _. fan_out repo rest note incident_id (count_outcome res outcome)) s1 h in
      ground (arith, fan_out_counts rest note incident_id (count_outcome res outcome) s2 h')

  quiet_branch :
      (incident_id : ℕ) (s : S) {res : NotifyResult} {s' : S}
      → stay_quiet repo incident_id s ≡ (ok res, s')
      → (res ≡ record none_sent { quiet = true })
        × (repo.record_outcome incident_id "gate" "" "quiet" "noise" s ≡ (ok tt, s'))
  unfolding stay_quiet
  quiet_branch incident_id s {res} {s'} h =
      let (_, s1, e, h') =
        >>=-eq-ok (repo.record_outcome incident_id "gate" "" "quiet" "noise")
          (λ _. λ t. (ok (record none_sent { quiet = true }), t)) s h in
      (ground arith, rw e (ground arith))

  dispatch : List (NotificationChannel S) → ℕ → Notification → Eff S NotifyResult
  dispatch channels incident_id note =
      if should_notify note
      then fan_out repo channels note incident_id none_sent
      else stay_quiet repo incident_id

  should_notify-eq-false :
      (note : Notification) → should_notify note ≡ false → note.verdict ≡ "likely_noise"
  unfolding should_notify
  should_notify-eq-false note h = ground (arith, eq_iff note.verdict "likely_noise")

  should_notify-ne_noise :
      (note : Notification) → should_notify note ≡ true → note.verdict ≢ "likely_noise"
  unfolding should_notify
  should_notify-ne_noise note h v = cc (subst (λ t. noisy t ≡ true) v h)

  -- What a dispatch that succeeds did with a loaded notification.
  abbrev pub Dispatched :
      List (NotificationChannel S) → ℕ → Notification → S → NotifyResult → S → Type 0
  Dispatched channels incident_id note s res s' =
      ((note.verdict ≡ "likely_noise")
        × (res ≡ record none_sent { quiet = true })
        × (repo.record_outcome incident_id "gate" "" "quiet" "noise" s ≡ (ok tt, s')))
      ⊎ ((note.verdict ≢ "likely_noise")
          × (res.quiet ≡ false)
          × (res.sent + res.failed ≡ length channels))

  dispatch-Dispatched :
      (channels : List (NotificationChannel S)) (incident_id : ℕ) (note : Notification) (s : S)
      (res : NotifyResult) (s' : S)
      → dispatch channels incident_id note s ≡ (ok res, s')
      → Dispatched channels incident_id note s res s'
  unfolding dispatch
  dispatch-Dispatched channels incident_id note s res s' h =
      elim (Bool-cases (should_notify note)) [
        | inl e ↦
            let (total, loud) = fan_out_counts channels note incident_id none_sent s (rw e at h) in
            inr (should_notify-ne_noise note e, loud, omega (arith, total))
        | inr e ↦
            let (r, k) = quiet_branch incident_id s (rw e at h) in
            inl (should_notify-eq-false note e, r, k)
      ]

  -- A dispatch that succeeds has loaded the notification. With the verdict "likely_noise" it stays
  -- quiet: no channel is called, and the state is the one that recording the quiet outcome leaves.
  -- With any other verdict, an unknown one included, it is not quiet, and the sent and the failed
  -- add up to the channels.
  pub notify_outcomes :
      (channels : List (NotificationChannel S)) (incident_id : ℕ) (s : S) {res : NotifyResult}
      {s' : S}
      → notify repo channels incident_id s ≡ (ok res, s')
      → (note : Notification) × (s1 : S) × (repo.load_notification incident_id s ≡ (ok note, s1))
        × Dispatched channels incident_id note s1 res s'
  unfolding notify dispatch
  notify_outcomes channels incident_id s {res} {s'} h =
      let (note, s1, e, k) =
        >>=-eq-ok (repo.load_notification incident_id) (dispatch channels incident_id) s h in
      (note, s1, e, dispatch-Dispatched channels incident_id note s1 res s' k)

module _ {S : Type 0} (repo : NotificationRepo S) where
  -- the error, with the state, is the one of a call of `Record` for the incident
  abbrev pub Unrecorded : ℕ → Error → S → Type 0
  Unrecorded incident_id e s' =
      (channel status reason : String) × (s1 : S) × (repo.record_outcome incident_id channel ""
          status reason s1
        ≡ (err e, s'))

  fan_out-Unrecorded :
      (channels : List (NotificationChannel S)) (note : Notification) (incident_id : ℕ)
      (res : NotifyResult) (s : S) {e : Error} {s' : S}
      → fan_out repo channels note incident_id res s ≡ (err e, s')
      → Unrecorded incident_id e s'
  unfolding fan_out
  fan_out-Unrecorded [] note incident_id res s h = cc
  fan_out-Unrecorded (ch ∷ rest) note incident_id res s h =
      let (outcome, s1) = ch.send note s in
      elim (>>=-eq-err (repo.record_outcome incident_id ch.name "" (status_of outcome) "actionable")
        (λ _. fan_out repo rest note incident_id (count_outcome res outcome)) s1 h) [
          | inl k ↦ (ch.name, status_of outcome, "actionable", s1, k)
          | inr (_, s2, _, k) ↦
              fan_out-Unrecorded rest note incident_id (count_outcome res outcome) s2 k
        ]

  stay_quiet-Unrecorded :
      (incident_id : ℕ) (s : S) {e : Error} {s' : S}
      → stay_quiet repo incident_id s ≡ (err e, s')
      → Unrecorded incident_id e s'
  unfolding stay_quiet
  stay_quiet-Unrecorded incident_id s h =
      elim (>>=-eq-err (repo.record_outcome incident_id "gate" "" "quiet" "noise")
        (λ _ t. (ok (record none_sent { quiet = true }), t)) s h) [
          | inl k ↦ ("gate", "quiet", "noise", s, k)
          | inr (_, s2, _, k) ↦ cc
        ]

  dispatch-Unrecorded :
      (channels : List (NotificationChannel S)) (incident_id : ℕ) (note : Notification) (s : S)
      {e : Error} {s' : S}
      → dispatch repo channels incident_id note s ≡ (err e, s')
      → Unrecorded incident_id e s'
  unfolding dispatch
  dispatch-Unrecorded channels incident_id note s h = elim (Bool-cases (should_notify note)) [
    | inl e ↦ fan_out-Unrecorded channels note incident_id none_sent s (rw e at h)
    | inr e ↦ stay_quiet-Unrecorded incident_id s (rw e at h)
  ]

  -- A channel that fails never makes a dispatch fail: whatever the channels answer, an error that the
  -- dispatch returns is the error with which the repository could not load the notification, or the one
  -- with which it could not record an outcome, and no call follows it.
  pub notify-eq-err :
      (channels : List (NotificationChannel S)) (incident_id : ℕ) (s : S) {e : Error} {s' : S}
      → notify repo channels incident_id s ≡ (err e, s')
      → (repo.load_notification incident_id s ≡ (err e, s')) ⊎ Unrecorded incident_id e s'
  unfolding notify dispatch
  notify-eq-err channels incident_id s h =
      elim (>>=-eq-err (repo.load_notification incident_id) (dispatch repo channels incident_id) s
        h) [
          | inl k ↦ inl k
          | inr (note, s1, _, k) ↦ inr (dispatch-Unrecorded channels incident_id note s1 k)
        ]
