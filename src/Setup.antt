-- ===== src/Setup.antt =====
-- cmd/valaf/main.go: the commands, and how `serve` and `worker` put the parts together from the
-- configuration.
use valaf.Common.{
  ℕ, String, Bool, true, false, ◌&&◌, ◌||◌, not, Option, none, some, List, [], ◌∷◌, ◌++◌, eqb, ltb,
  length, ◌==◌, if◌then◌else◌,
}
use valaf.Common.Text.{Text, codes}
use valaf.Common.Effect.{Result, ok, err, message, Eff, throw, ◌>>◌}
use valaf.Core.Severity.{Severity, sev_unknown, sev_high, parse_severity}
use valaf.Core.Intake.{IncidentRepository, Service, with_threshold, new_service}
use valaf.Core.Collect.{Collector}
use valaf.Core.Analyze.{AiProvider}
use valaf.Core.Notify.{NotificationChannel}
use valaf.Store.Sql.{Sql}
use valaf.Store.Accounts.{create_user, upsert_shared_token}
use valaf.Adapters.Ai.{Api, openai_compat, anthropic}
use valaf.Adapters.Notify.{Transport, slack, telegram, email, webhook}
use valaf.Config.{Config}
use valaf.Blob.{choose_backend, Backend}

-- a threshold that is no severity falls back to high
unfoldable pub threshold_of : Config → Severity
threshold_of cfg =
    if eqb (parse_severity cfg.severity_threshold) sev_unknown
    then sev_high
    else parse_severity cfg.severity_threshold

-- the intake service of `serve`
unfoldable pub intake_service : {S : Type 0} → IncidentRepository S → Config → Service S
unfolding threshold_of
intake_service repo cfg = new_service repo (with_threshold (threshold_of cfg) ∷ [])

abbrev pub append_if : {A : Type 0} → Bool → A → List A → List A
append_if b x xs = if b then xs ++ x ∷ [] else xs

unfoldable pub build_channels : {S : Type 0} → Transport S → Config → List (NotificationChannel S)
unfolding slack telegram email webhook
build_channels transport cfg =
    append_if (not (cfg.webhook_url == ""))
      (webhook transport cfg.base_url (codes cfg.webhook_url) cfg.webhook_token)
      (append_if
        (not (cfg.smtp_host == "") && (not (cfg.smtp_from == "") && ltb 0 (length cfg.smtp_to)))
        (email transport cfg.base_url (codes cfg.smtp_host) cfg.smtp_port cfg.smtp_username
          cfg.smtp_password (codes cfg.smtp_from) cfg.smtp_to)
        (append_if (not (cfg.telegram_bot_token == "") && not (cfg.telegram_chat_id == ""))
          (telegram transport cfg.base_url (codes cfg.telegram_bot_token)
            (codes cfg.telegram_chat_id))
          (append_if (not (cfg.slack_webhook_url == ""))
            (slack transport cfg.base_url (codes cfg.slack_webhook_url)) [])))

unfoldable pub build_ai_provider : {S : Type 0} → Api S → Config → Option (AiProvider S)
unfolding openai_compat anthropic
build_ai_provider api cfg =
    if cfg.ai_provider == "openai_compat"
    then some (openai_compat api cfg.ai_base_url cfg.ai_api_key cfg.ai_model)
    else if cfg.ai_provider == "anthropic"
    then some (anthropic api cfg.ai_base_url cfg.ai_api_key cfg.ai_model)
    else none

-- `prometheus` and `grafana` are the constructors of the collectors over their HTTP clients
unfoldable pub build_collectors :
    {S : Type 0}
    → (String → Collector S)
    → (Text → String → Collector S)
    → Config
    → List (Collector S)
build_collectors prometheus grafana cfg =
    append_if (not (is_empty cfg.grafana_url) && not (cfg.grafana_token == ""))
      (grafana cfg.grafana_url cfg.grafana_token)
      (append_if (not (cfg.prometheus_url == "")) (prometheus cfg.prometheus_url) [])
  where
    is_empty : Text → Bool
    is_empty [] = true
    is_empty (c ∷ t) = false

-- `buildBlobStore`
unfoldable pub blob_backend : Config → Backend
unfolding choose_backend
blob_backend cfg = choose_backend (record {
  s3_endpoint = cfg.s3_endpoint;
  s3_bucket = cfg.s3_bucket;
  s3_access_key = cfg.s3_access_key;
  s3_secret_key = cfg.s3_secret_key;
  s3_use_ssl = cfg.s3_use_ssl;
  local_dir = cfg.data_dir;
})

-- what the commands do, over a world `W`
pub record Actions (W : Type 0) : Type 0 where
  pub open_pool : Eff W Unit
  pub run_migrations : Eff W Unit
  pub serve : Eff W Unit
  pub run_worker : Eff W Unit
  pub intake_token : Eff W Unit
  pub create_user : Eff W Unit

-- `run`
unfoldable pub run_command : {W : Type 0} → Actions W → String → Eff W Unit
run_command act cmd =
    act.open_pool
    >> (if cmd == "migrate"
        then act.run_migrations
        else if cmd == "serve"
        then act.run_migrations >> act.serve
        else if cmd == "intake-token"
        then act.intake_token
        else if cmd == "create-user"
        then act.create_user
        else if cmd == "worker"
        then act.run_worker
        else throw (message "unknown command"))

-- `intakeToken`: the arguments after the command, and a fresh random token
module _ (hash_token : Text → String) where
  unfoldable pub intake_token : List String → String → Sql String
  unfolding upsert_shared_token
  intake_token [] token = throw (message "usage: valaf intake-token <name> [source_type]")
  intake_token (name ∷ []) token = upsert_shared_token hash_token name "alertmanager" token
  intake_token (name ∷ source_type ∷ rest) token =
      upsert_shared_token hash_token name source_type token

abbrev pub is_account_role : String → Bool
is_account_role role = (role == "viewer") || ((role == "engineer") || (role == "admin"))

-- `createUser`: a password that is not given is the first 20 characters of a fresh random token;
-- `hash_password` is auth.HashPassword with its salt
module _ (hash_password : String → Result String) where
  with_hash : String → String → Result String → Sql ℕ
  unfolding create_user
  with_hash username role (err e) = throw e
  with_hash username role (ok hash) = create_user username "" hash role "local"

  account : String → String → String → Sql ℕ
  unfolding with_hash
  account username role password =
      if is_account_role role
      then with_hash username role (hash_password password)
      else throw (message "role must be viewer, engineer, or admin")

  unfoldable pub create_account : List String → String → Sql ℕ
  unfolding account
  create_account [] generated = throw (message "usage: valaf create-user")
  create_account (username ∷ []) generated = throw (message "usage: valaf create-user")
  create_account (username ∷ role ∷ []) generated = account username role generated
  create_account (username ∷ role ∷ password ∷ rest) generated = account username role password
