-- ===== src/Web/Auth.antt =====
-- internal/web/auth.go: the principal of a request, roles, CSRF, login and logout.
use valaf.Common.{
  ℕ, String, Bool, true, false, ◌&&◌, ◌||◌, not, Option, none, some, leb, ◌==◌, if◌then◌else◌,
}
use valaf.Common.Text.{Text}
use valaf.Common.Maps.{get, find}
use valaf.Common.Effect.{Error, Result, ok, err, user_not_found}
use valaf.Core.Alert.{Time}
use valaf.Store.Sql.{Conn}
use valaf.Store.Accounts.{
  User, Session, find_by_username, update_last_login, upsert_proxy_user, create_session,
  resolve_session, delete_session,
}
use valaf.Web.Http.{AuthUser, Request, Response, refusal, redirect, logged_in, logged_out, Handler}

pub record AuthConfig : Type 0 where
  pub trusted_proxy_header : String
  pub session_ttl : Time

abbrev pub session_cookie : String
session_cookie = "valaf_session"

unfoldable pub role_rank : String → ℕ
role_rank role =
    if role == "admin"
    then 3
    else if role == "engineer"
    then 2
    else if role == "viewer"
    then 1
    else 0

unfoldable pub role_at_least : String → String → Bool
unfolding role_rank
role_at_least have min = leb (role_rank min) (role_rank have)

guard_user : Handler → Option AuthUser → Handler
guard_user next none r c = (redirect "/login", c)
guard_user next (some u) r c = next r c

unfoldable pub require_user : Handler → Handler
unfolding guard_user
require_user next r c = guard_user next r.user r c

unfoldable pub guard_role : String → Handler → Option AuthUser → Handler
unfolding role_at_least
guard_role min next none r c = (redirect "/login", c)
guard_role min next (some u) r c =
    if not (role_at_least u.role min) then (refusal 403 "forbidden", c) else next r c

unfoldable pub require_role : String → Handler → Handler
unfolding guard_role
require_role min next r c = guard_role min next r.user r c

-- the form's token, or the header's
abbrev pub presented_token : Request → String
presented_token r =
    let token = get r.form "csrf" in if token == "" then get r.headers "X-CSRF-Token" else token

csrf_of_user : Option AuthUser → Request → Bool
unfolding get
csrf_of_user none r = false
csrf_of_user (some u) r =
    if u.via_proxy then true else not (presented_token r == "") && (presented_token r == u.csrf)

unfoldable pub check_csrf : Request → Bool
unfolding csrf_of_user
check_csrf r = csrf_of_user r.user r

abbrev pub login_refused : Response
login_refused = refusal 401 "Invalid username or password."

abbrev pub internal_error : Response
internal_error = refusal 500 "internal error"

module _ (hash_token : Text → String)
    -- auth.VerifyPassword, an error counting as a mismatch
    (verify_password : String → String → Bool) where
  abbrev of_session : Result (Session × User) × Conn → Option AuthUser × Conn
  of_session (err e, c) = (none, c)
  of_session (ok (s, u), c) = (
    some (record {
      id = u.id;
      username = u.username;
      role = u.role;
      csrf = s.csrf_secret;
      via_proxy = false;
    }),
    c,
  )

  by_cookie : Time → Option String → Conn → Option AuthUser × Conn
  by_cookie now none c = (none, c)
  by_cookie now (some token) c = of_session (resolve_session hash_token now token c)

  -- a failure to resolve the proxy's user falls through to the cookie
  abbrev of_proxy : Time → Option String → Result User × Conn → Option AuthUser × Conn
  of_proxy now cookie (err e, c) = by_cookie now cookie c
  of_proxy now cookie (ok u, c) = (
    some (record { id = u.id; username = u.username; role = u.role; csrf = ""; via_proxy = true }),
    c,
  )

  unfoldable pub resolve_auth : AuthConfig → Time → Request → Conn → Option AuthUser × Conn
  unfolding by_cookie get find
  resolve_auth cfg now r c =
      let cookie = find r.cookies session_cookie in
      let username = get r.headers cfg.trusted_proxy_header in
      if (cfg.trusted_proxy_header == "") || (username == "")
      then by_cookie now cookie c
      else of_proxy now cookie (upsert_proxy_user now username c)

  -- the rest of the login, after the password has been verified; a failure to note the time of the
  -- login is passed over
  abbrev pub with_session : Time → User → Result String × Conn → Response × Conn
  with_session now u (err e, c) = (internal_error, c)
  with_session now u (ok token, c) = (logged_in token, (update_last_login now u.id c).1)

  abbrev pub may_login : String → User → Bool
  may_login password u =
      verify_password password u.password_hash && (not (u.password_hash == "") && u.is_active)

  abbrev pub refuse_lookup : Error → Response
  refuse_lookup user_not_found = login_refused
  refuse_lookup _ = internal_error

  unfoldable pub check_login :
      AuthConfig → Time → String → String → String → Result User × Conn → Response × Conn
  check_login cfg now password token csrf (err e, c) = (refuse_lookup e, c)
  check_login cfg now password token csrf (ok u, c) =
      if may_login password u
      then with_session now u (create_session hash_token now u.id cfg.session_ttl token csrf c)
      else (login_refused, c)

  -- `token` and `csrf` are the next two values of `randomToken`
  unfoldable pub login : AuthConfig → Time → String → String → Handler
  unfolding check_login get
  login cfg now token csrf r c =
      check_login cfg now (get r.form "password") token csrf
        (find_by_username (get r.form "username") c)

  abbrev drop_session : Option String → Conn → Conn
  drop_session none c = c
  drop_session (some token) c = (delete_session hash_token token c).1

  unfoldable pub logout : Handler
  unfolding check_csrf find
  logout r c =
      if not (check_csrf r)
      then (refusal 403 "invalid CSRF token", c)
      else (logged_out, drop_session (find r.cookies session_cookie) c)
