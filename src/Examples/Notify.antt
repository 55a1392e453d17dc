-- ===== src/Examples/Notify.antt =====
-- Messages of the channels on concrete notifications.
use valaf.Common.{◌≡◌, refl, true, []}
use valaf.Common.Text.{codes, contains_text}
use valaf.Core.Notify.{Notification}
use valaf.Adapters.Notify.{text_of, build_message}

abbrev note : Notification
note = record {
  incident_id = 7;
  title = "disk full";
  severity = "high";
  verdict = "actionable";
  summary = "";
  top_hypothesis = "logs";
}

told :
    text_of (codes "/incidents/7") note
    ≡ codes "[HIGH] disk full — actionable\nMost likely: logs\n/incidents/7"
unfolding text_of
told = refl

-- the title of an alert writes a header of the mail
injected :
    contains_text
      (build_message [] (codes "a@b") [] (record note { title = "disk\r\nBcc: c@d" }))
      (codes "\r\nBcc: c@d\r\n")
    ≡ true
unfolding build_message contains_text
injected = refl
