-- ===== src/Examples/Web.antt =====
-- The guards on concrete requests.
use valaf.Common.{ℕ, ◌≡◌, refl, String, Bool, true, false, ◌&&◌, ◌==◌, Option, none, some, [], ◌∷◌}
use valaf.Common.Text.{Text}
use valaf.Common.Effect.{ok, pure}
use valaf.Core.Intake.{IntakeAdapter, Service}
use valaf.Store.Tables.{SourceRow, empty_tables}
use valaf.Store.Sql.{Conn, Sql, up}
use valaf.Store.Accounts.{new_user}
use valaf.Store.Incidents.{incident_repo}
use valaf.Web.Http.{Request}
use valaf.Web.Auth.{AuthConfig, check_csrf, login}
use valaf.Web.Intake.{webhook}
use valaf.Web.Review.{can_edit, verdict_route, flag_route, resolution_route}
use valaf.Web.Guards.{
  Refuses, Guarded, LoginOutcome, review_routes-Refuses, webhook-Guarded, login_outcomes,
}
use valaf.Examples.Data.{batch}

-- an engineer's request with a token that is not the session's
abbrev forged : Request
forged = record {
  user =
      some (record { id = 5; username = "ada"; role = "engineer"; csrf = "c"; via_proxy = false });
  headers = [];
  cookies = [];
  form = ("csrf", "x") ∷ ("verdict", "confirmed") ∷ [];
  path_id = 3;
  source = "am";
  body = some "{}";
}

abbrev reload : ℕ → Sql Unit
reload id = pure tt

forged_csrf : can_edit forged && check_csrf forged ≡ false
unfolding can_edit check_csrf
forged_csrf = refl

review_routes-Refuses_example :
    Refuses (verdict_route reload 100) forged (up empty_tables)
    × Refuses (flag_route reload 100) forged (up empty_tables)
    × Refuses (resolution_route reload 100) forged (up empty_tables)
review_routes-Refuses_example =
    review_routes-Refuses reload 100 forged (up empty_tables) forged_csrf

-- stand-ins for the digest, the HMAC and the decoder
abbrev digest : Text → String
digest t = elim t [ [] ↦ "0" | ◌∷◌ c rest ↦ "1" ]

abbrev mac : String → String → Text
mac key body = []

abbrev decode_hex : String → Option Text
decode_hex s = none

abbrev adapter : IntakeAdapter
adapter = record { source = "alertmanager"; parse = λ body. ok batch }

abbrev service : Service Conn
service = record { repo = incident_repo 100; threshold = 3; window = 60 }

abbrev source : SourceRow
source = record {
  id = 1;
  name = "am";
  source_type = "alertmanager";
  auth_method = "shared_token";
  token_hash = some "2";
  hmac_secret = none;
  is_active = true;
  last_seen_at = none;
}

abbrev sources : Conn
sources = up (record empty_tables { next_id = 6; intake_sources = source ∷ [] })

webhook-Guarded_example :
    Guarded digest mac decode_hex service
      (("alertmanager", adapter) ∷ [])
      100
      forged
      sources
      (webhook digest mac decode_hex service (("alertmanager", adapter) ∷ []) 100 forged sources)
webhook-Guarded_example =
    webhook-Guarded digest mac decode_hex service (("alertmanager", adapter) ∷ []) 100 forged
      sources

abbrev cfg : AuthConfig
cfg = record { trusted_proxy_header = ""; session_ttl = 60 }

abbrev verify : String → String → Bool
verify password hash = password == hash

abbrev credentials : Request
credentials = record forged { form = ("username", "ada") ∷ ("password", "h") ∷ [] }

abbrev accounts : Conn
accounts =
    up
      (record empty_tables { next_id = 6; users = new_user 5 "ada" "" "h" "engineer" "local" ∷ [] })

login_outcomes_example :
    LoginOutcome digest verify cfg 100 "t" "c" credentials accounts
      (login digest verify cfg 100 "t" "c" credentials accounts).0
      (login digest verify cfg 100 "t" "c" credentials accounts).1
login_outcomes_example = login_outcomes digest verify cfg 100 "t" "c" credentials accounts
