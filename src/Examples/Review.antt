-- ===== src/Examples/Review.antt =====
-- Analyses, reviews and sessions on concrete data.
use valaf.Common.{◌≤◌, ℕ, ◌≡◌, refl, String, true, ◌⊎◌, none, [], ◌∷◌, ◌++◌, count, arith}
use valaf.Common.Text.{Text}
use valaf.Common.Effect.{Error, Result, ok, err, session_not_found}
use valaf.Core.Analyze.{AnalysisRecord, analyzed}
use valaf.Store.Tables.{UserRow, Tables, empty_tables}
use valaf.Store.Sql.{Conn, up, exec, transaction, null_if_empty}
use valaf.Store.Jobs.{incident_exists}
use valaf.Store.Incidents.{upsert_alert, ingest_batch}
use valaf.Store.Evidence.{save_evidence}
use valaf.Store.Analysis.{save_analysis}
use valaf.Store.Analysis.Current.{AtMostOne, is_current_of, save_analysis_current}
use valaf.Store.Analysis.Publish.{AllPublished, save_analysis_publishes}
use valaf.Store.Review.{ResolutionInput, is_resolution_of, flag_evidence, save_resolution}
use valaf.Store.Review.Resolved.{AllResolved, audit_row, save_resolution_resolves}
use valaf.Store.Review.Flagged.{Flagged, flag_evidence_audited}
use valaf.Store.Accounts.{
  Session, new_user, user_of, create_session, resolve_session, delete_session,
}
use valaf.Store.Accounts.Sessions.{create_session-resolve, delete_session-resolve}
use valaf.Examples.Data.{lenient, items, answer}
use valaf.Examples.Store.{stored}

-- an analysis of incident 1 that the provider answered
abbrev analysis : AnalysisRecord
analysis = record {
  provider = "openai_compat";
  model = "m";
  status = analyzed;
  error = none;
  result = answer;
  ref_to_id = [];
  triage_verdict = "likely_noise";
  similar = [];
}

abbrev analysed : Conn
analysed = (save_analysis 130 1 analysis (up stored.tables)).1

first_analysis : save_analysis 130 1 analysis (up stored.tables) ≡ (ok tt, analysed)
unfolding save_analysis ingest_batch exec transaction upsert_alert
first_analysis = refl

no_analyses : AtMostOne stored.tables.analyses
unfolding ingest_batch exec transaction upsert_alert
no_analyses i = omega arith

save_analysis_current_example :
    AtMostOne analysed.tables.analyses
    × (((e : Error) × (ok tt ≡ err e) × (analysed.tables ≡ stored.tables))
        ⊎ ((ok tt ≡ ok tt) × (count (is_current_of 1) analysed.tables.analyses ≡ 1)))
save_analysis_current_example =
    save_analysis_current 130 1 analysis (up stored.tables) (ok tt) analysed no_analyses
      first_analysis

save_analysis_publishes_example :
    AllPublished 130 1
      (null_if_empty "likely_noise")
      stored.tables.incidents
      analysed.tables.incidents
save_analysis_publishes_example =
    save_analysis_publishes 130 1 analysis (up stored.tables) analysed first_analysis

-- the first item is flagged
abbrev observed : Conn
observed = (save_evidence lenient 120 1 items (up stored.tables)).1

abbrev flagged : Conn
flagged = (flag_evidence 140 3 "wrong host" 50 observed).1

abbrev flag_result : Result ℕ
flag_result = ok 1

first_flag : flag_evidence 140 3 "wrong host" 50 observed ≡ (ok 1, flagged)
unfolding flag_evidence save_evidence ingest_batch exec transaction upsert_alert
first_flag = refl

flag_evidence_audited_example :
    ((e : Error) × (flag_result ≡ err e) × (flagged.tables ≡ observed.tables))
    ⊎ ((incident_id : ℕ) × (flag_result ≡ ok incident_id)
        × Flagged 140 3 "wrong host" 50 observed.tables incident_id flagged.tables)
flag_evidence_audited_example =
    flag_evidence_audited 140 3 "wrong host" 50 observed flag_result flagged first_flag

-- a digest, for the runs
abbrev digest : Text → String
digest t = elim t [ [] ↦ "0" | ◌∷◌ c rest ↦ "1" ]

abbrev ada : UserRow
ada = new_user 5 "ada" "" "h" "engineer" "local"

abbrev accounts : Tables
accounts = record empty_tables { next_id = 6; users = ada ∷ [] }

create_session-resolve_example :
    (t' : Tables) × (s : Session) × (create_session digest 100 5 60 "t" "c" (up accounts)
      ≡ (ok "t", up t'))
    × (resolve_session digest 159 "t" (up t') ≡ (ok (s, user_of ada), up t'))
    × (s.csrf_secret ≡ "c")
    × (s.user_id ≡ 5)
create_session-resolve_example =
    create_session-resolve digest 100 159 60 5 "t" "c" accounts ada refl tt (omega arith)

abbrev signed_in : Conn
signed_in = (create_session digest 100 5 60 "t" "c" (up accounts)).1

delete_session-resolve_example :
    (t' : Tables) × (delete_session digest "t" (up signed_in.tables) ≡ (ok tt, up t'))
    × (resolve_session digest 120 "t" (up t') ≡ (err session_not_found, up t'))
delete_session-resolve_example = delete_session-resolve digest 120 "t" signed_in.tables

-- incident 1 is resolved
abbrev input : ResolutionInput
input = record {
  root_cause = "logs";
  actions_taken = "";
  ultimate_solution = "rotation";
  notes = "";
}

abbrev resolved_store : Conn
resolved_store = (save_resolution 150 1 input 50 (up stored.tables)).1

first_resolution : save_resolution 150 1 input 50 (up stored.tables) ≡ (ok tt, resolved_store)
unfolding save_resolution ingest_batch exec transaction upsert_alert
first_resolution = refl

none_before : count (is_resolution_of 1) stored.tables.resolutions ≤ 1
unfolding ingest_batch exec transaction upsert_alert
none_before = omega arith

save_resolution_resolves_example :
    ((e : Error) × (ok tt ≡ err e) × (resolved_store.tables ≡ stored.tables))
    ⊎ ((ok tt ≡ ok tt)
        × (incident_exists 1 stored.tables ≡ true)
        × (count (is_resolution_of 1) resolved_store.tables.resolutions ≡ 1)
        × AllResolved 150 1 stored.tables.incidents resolved_store.tables.incidents
        × (resolved_store.tables.audit_log
            ≡ stored.tables.audit_log ++ audit_row 150 1 input 50 ∷ []))
save_resolution_resolves_example =
    save_resolution_resolves 150 1 input 50 (up stored.tables) (ok tt) resolved_store none_before
      first_resolution
