-- ===== src/Web/Intake.antt =====
-- internal/web/intake.go: the webhook.
use valaf.Common.{String, Bool, false, Option, none, some, ◌==◌, if◌then◌else◌}
use valaf.Common.Text.{Text, codes, trim_space, cut_prefix}
use valaf.Common.Maps.{Map, get, find}
use valaf.Common.Effect.{Error, Result, ok, err, bad_payload, source_not_found}
use valaf.Core.Alert.{Time}
use valaf.Core.Intake.{IntakeAdapter, Service, IngestResult, dropped, stored, ingest}
use valaf.Store.Sql.{Conn}
use valaf.Store.Accounts.{Source, find_active, touch_last_seen, verify_shared_token, verify_hmac}
use valaf.Web.Http.{Request, Response, refusal, dropped_batch, accepted, Handler}

abbrev token_of : Option Text → Text → Text
token_of none other = trim_space other
token_of (some t) other = trim_space t

-- `bearerToken`: a header with another scheme falls through to X-Valaf-Token
unfoldable pub bearer_token : Request → Text
unfolding get trim_space cut_prefix
bearer_token r =
    token_of (cut_prefix (codes "Bearer ") (codes (get r.headers "Authorization")))
      (codes (get r.headers "X-Valaf-Token"))

module _ (hash_token : Text → String) (mac : String → String → Text)
    (decode_hex : String → Option Text) where
  unfoldable pub authenticate : Source → Request → String → Bool
  unfolding bearer_token verify_shared_token verify_hmac
  authenticate src r body =
      if src.auth_method == "shared_token"
      then verify_shared_token hash_token src (bearer_token r)
      else if src.auth_method == "hmac"
      then verify_hmac mac decode_hex src body (get r.headers "X-Valaf-Signature")
      else false

  abbrev refuse_ingest : Error → Response
  refuse_ingest bad_payload = refusal 400 "bad payload"
  refuse_ingest _ = refusal 500 "internal error"

  abbrev respond : Result IngestResult × Conn → Response × Conn
  respond (err e, c) = (refuse_ingest e, c)
  respond (ok (dropped reason), c) = (dropped_batch reason, c)
  respond (ok (stored out), c) = (accepted out, c)

  unfoldable pub ingest_with :
      Service Conn → Time → String → Option IntakeAdapter → Conn → Response × Conn
  ingest_with svc now body none c = (refusal 501 "unsupported source type", c)
  ingest_with svc now body (some adapter) c = respond (ingest svc adapter now body c)

  abbrev pub refuse_source : Error → Response
  refuse_source source_not_found = refusal 401 "unauthorized"
  refuse_source _ = refusal 500 "internal error"

  -- an error of `TouchLastSeen` is only logged
  unfoldable pub serve_source :
      Service Conn
      → Map IntakeAdapter
      → Time
      → Request
      → String
      → Result Source × Conn
      → Response × Conn
  unfolding authenticate ingest_with find
  serve_source svc adapters now r body (err e, c) = (refuse_source e, c)
  serve_source svc adapters now r body (ok src, c) =
      if authenticate src r body
      then ingest_with svc now body (find adapters src.source_type) (touch_last_seen now src.id c).1
      else (refusal 401 "unauthorized", c)

  unfoldable pub serve_body :
      Service Conn → Map IntakeAdapter → Time → Request → Option String → Conn → Response × Conn
  unfolding serve_source
  serve_body svc adapters now r none c = (refusal 400 "cannot read body", c)
  serve_body svc adapters now r (some body) c =
      serve_source svc adapters now r body (find_active r.source c)

  unfoldable pub webhook : Service Conn → Map IntakeAdapter → Time → Handler
  unfolding serve_body
  webhook svc adapters now r c = serve_body svc adapters now r r.body c
