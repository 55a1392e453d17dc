-- ===== src/Store/Notifications.antt =====
-- internal/store/notifications.go
use valaf.Common.{
  ℕ, String, ◌&&◌, Option, none, some, List, [], ◌∷◌, ◌++◌, ltb, eqb, select, first, if◌then◌else◌,
}
use valaf.Common.Effect.{ok, err, no_rows, constraint}
use valaf.Core.Notify.{Notification, NotificationRepo}
use valaf.Store.Tables.{AnalysisRow, HypothesisRow, Tables}
use valaf.Store.Sql.{Conn, Sql, exec, null_if_empty, or_empty}
use valaf.Store.Jobs.{incident_exists}
use valaf.Store.Incidents.{find_incident}

abbrev pub current_analysis : ℕ → Tables → Option AnalysisRow
current_analysis id t =
    first (select (λ (a : AnalysisRow). eqb a.incident_id id && a.is_current) t.analyses)

abbrev pub better : HypothesisRow → Option HypothesisRow → Option HypothesisRow
better h none = some h
better h (some k) = if ltb k.rank h.rank then some k else some h

-- ORDER BY h.rank LIMIT 1
unfoldable pub top_ranked : List HypothesisRow → Option HypothesisRow
top_ranked [] = none
top_ranked (h ∷ rest) = better h (top_ranked rest)

abbrev pub title_of : Option HypothesisRow → String
title_of none = ""
title_of (some h) = h.title

abbrev pub summary_of : Option AnalysisRow → String
summary_of none = ""
summary_of (some a) = or_empty a.summary

top_title : Option AnalysisRow → Tables → String
unfolding top_ranked
top_title none t = ""
top_title (some a) t =
    title_of (top_ranked (select (λ (h : HypothesisRow). eqb h.analysis_id a.id) t.hypotheses))

-- COALESCE(triage_verdict, 'unknown')
abbrev pub or_unknown : Option String → String
or_unknown none = "unknown"
or_unknown (some v) = v

unfoldable pub load_notification : ℕ → Sql Notification
unfolding top_title
load_notification incident_id = exec (λ t. elim (find_incident incident_id t) [
  | none ↦ err no_rows
  | some i ↦ ok (
    record {
      incident_id = i.id;
      title = i.title;
      severity = i.severity;
      verdict = or_unknown i.triage_verdict;
      summary = summary_of (current_analysis incident_id t);
      top_hypothesis = top_title (current_analysis incident_id t) t;
    },
    t,
  )
])

-- the INSERT of `Record`, with its foreign key
unfoldable pub record_notification : ℕ → String → String → String → String → Sql Unit
record_notification incident_id channel target status reason = exec (λ t.
    if incident_exists incident_id t
    then ok (
      tt,
      record t {
        notifications =
            t.notifications
            ++ record {
              incident_id = incident_id;
              channel = channel;
              target = null_if_empty target;
              status = status;
              reason = reason;
            }
              ∷ [];
      },
    )
    else err constraint)

abbrev pub notification_repo : NotificationRepo Conn
notification_repo = record {
  load_notification = load_notification;
  record_outcome = record_notification;
}
