-- ===== src/Config.antt =====
-- internal/config/config.go: the configuration that the environment gives. A value that is trimmed or
-- split is a text of code points.
use Prim.Native.Nat.{◌^◌}
use valaf.Common.{
  ℕ, ◌+◌, ◌-◌, ◌*◌, String, Bool, ◌&&◌, Option, none, some, List, [], ◌∷◌, ltb, leb, eqb, ◌==◌,
  if◌then◌else◌,
}
use valaf.Common.Text.{Text, codes, same, split, trim_space, trim_right}
use valaf.Common.Effect.{Result, ok, err, message}

pub record Config : Type 0 where
  pub database_url : String
  pub http_addr : String
  pub log_level : String
  pub severity_threshold : String
  pub prometheus_url : String
  pub ai_provider : String
  pub ai_base_url : String
  pub ai_api_key : String
  pub ai_model : String
  pub trusted_proxy_header : String
  pub session_secure : Bool
  pub base_url : Text
  pub slack_webhook_url : String
  pub telegram_bot_token : String
  pub telegram_chat_id : String
  pub smtp_host : String
  pub smtp_port : ℕ
  pub smtp_username : String
  pub smtp_password : String
  pub smtp_from : String
  pub smtp_to : List Text
  pub webhook_url : String
  pub webhook_token : String
  pub s3_endpoint : String
  pub s3_bucket : String
  pub s3_access_key : String
  pub s3_secret_key : String
  pub s3_use_ssl : Bool
  pub data_dir : String
  pub grafana_url : Text
  pub grafana_token : String

-- the value of a row of digits after `n`; none if there is another character
unfoldable pub digits_from : ℕ → Text → Option ℕ
digits_from n [] = some n
digits_from n (c ∷ t) =
    let rest = digits_from (n * 10 + (c - b'0')) t in
    if leb b'0' c && leb c b'9' then rest else none

unfoldable pub magnitude : Text → Option ℕ
unfolding digits_from
magnitude [] = none
magnitude (c ∷ t) = digits_from 0 (c ∷ t)

-- none if the number is beyond `int`, which has 64 bits
abbrev pub within_int : Option ℕ → Option ℕ
within_int none = none
within_int (some n) = if ltb n (2 ^ 63) then some n else none

-- strconv.Atoi of a number above 0: zero and the numbers below it are none, as the errors are
unfoldable pub positive : Text → Option ℕ
unfolding magnitude
positive [] = none
positive (c ∷ t) = above_zero (
    within_int (if eqb c b'+' then magnitude t else if eqb c b'-' then none else magnitude (c ∷ t)))
  where
    above_zero : Option ℕ → Option ℕ
    above_zero none = none
    above_zero (some n) = if ltb 0 n then some n else none

abbrev or_default : Option ℕ → ℕ → ℕ
or_default none fallback = fallback
or_default (some n) fallback = n

unfoldable pub atoi_or : Text → ℕ → ℕ
unfolding positive
atoi_or s fallback = or_default (positive s) fallback

-- the loop over the parts
unfoldable pub keep_parts : List Text → List Text
unfolding trim_space same
keep_parts [] = []
keep_parts (p ∷ rest) =
    let others = keep_parts rest in if same (trim_space p) [] then others else trim_space p ∷ others

-- nil is the empty list
unfoldable pub split_list : Text → List Text
unfolding keep_parts split trim_space same
split_list s = if same (trim_space s) [] then [] else keep_parts (split b',' [] s)

-- `env` is os.Getenv, which gives "" for a variable that is not set
module _ (env : String → String) where
  unfoldable pub getenv : String → String → String
  getenv key fallback = if env key == "" then fallback else env key

  abbrev pub first_non_empty : String → String → String
  first_non_empty a b = if a == "" then b else a

  unfoldable pub config_of : Config
  unfolding getenv atoi_or split_list trim_right
  config_of = record {
    database_url = first_non_empty (env "VALAF_DATABASE_URL") (env "DATABASE_URL");
    http_addr = getenv "VALAF_HTTP_ADDR" ":8080";
    log_level = getenv "VALAF_LOG_LEVEL" "info";
    severity_threshold = getenv "VALAF_SEVERITY_THRESHOLD" "high";
    prometheus_url = env "VALAF_PROMETHEUS_URL";
    ai_provider = env "VALAF_AI_PROVIDER";
    ai_base_url = env "VALAF_AI_BASE_URL";
    ai_api_key = env "VALAF_AI_API_KEY";
    ai_model = env "VALAF_AI_MODEL";
    trusted_proxy_header = env "VALAF_TRUSTED_PROXY_HEADER";
    session_secure = env "VALAF_SESSION_SECURE" == "true";
    base_url = trim_right b'/' (codes (env "VALAF_BASE_URL"));
    slack_webhook_url = env "VALAF_SLACK_WEBHOOK_URL";
    telegram_bot_token = env "VALAF_TELEGRAM_BOT_TOKEN";
    telegram_chat_id = env "VALAF_TELEGRAM_CHAT_ID";
    smtp_host = env "VALAF_SMTP_HOST";
    smtp_port = atoi_or (codes (env "VALAF_SMTP_PORT")) 587;
    smtp_username = env "VALAF_SMTP_USERNAME";
    smtp_password = env "VALAF_SMTP_PASSWORD";
    smtp_from = env "VALAF_SMTP_FROM";
    smtp_to = split_list (codes (env "VALAF_SMTP_TO"));
    webhook_url = env "VALAF_WEBHOOK_URL";
    webhook_token = env "VALAF_WEBHOOK_TOKEN";
    s3_endpoint = env "VALAF_S3_ENDPOINT";
    s3_bucket = env "VALAF_S3_BUCKET";
    s3_access_key = env "VALAF_S3_ACCESS_KEY";
    s3_secret_key = env "VALAF_S3_SECRET_KEY";
    s3_use_ssl = env "VALAF_S3_USE_SSL" == "true";
    data_dir = getenv "VALAF_DATA_DIR" "/var/lib/valaf";
    grafana_url = trim_right b'/' (codes (env "VALAF_GRAFANA_URL"));
    grafana_token = env "VALAF_GRAFANA_TOKEN";
  }

  unfoldable pub load : Result Config
  unfolding config_of
  load =
      if config_of.database_url == ""
      then err (message "VALAF_DATABASE_URL (or DATABASE_URL) is required")
      else ok config_of
