-- ===== src/Store/Accounts.antt =====
-- internal/store/users.go, sessions.go and intake_sources.go: accounts, sessions and the
-- credentials of alert sources. Hashing, random tokens and HMAC are the caller's: `crypto/sha256`,
-- `crypto/rand` and `crypto/hmac`.
pub mod Sessions
use valaf.Common.{
  ℕ, suc, ◌+◌, String, Bool, true, false, ◌&&◌, ◌||◌, not, Option, none, some, List, [], ◌∷◌, ◌++◌,
  ltb, eqb, select, update, first, any, ◌==◌, if◌then◌else◌,
}
use valaf.Common.Effect.{
  Error, Result, ok, err, constraint, no_rows, user_not_found, session_not_found, source_not_found,
  Eff, pure, throw, ◌>>=◌, ◌>>◌,
}
use valaf.Common.Text.{Text, codes, same}
use valaf.Core.Alert.{Time}
use valaf.Store.Tables.{UserRow, SessionRow, SourceRow, Tables}
use valaf.Store.Incidents.{is_alert_source}
use valaf.Store.Sql.{Sql, Query, exec, read, write, null_if_empty, or_empty}

pub record User : Type 0 where
  pub id : ℕ
  pub username : String
  pub email : String
  pub password_hash : String
  pub role : String
  pub auth_source : String
  pub is_active : Bool

-- the columns `userCols`
abbrev pub user_of : UserRow → User
user_of u = record {
  id = u.id;
  username = u.username;
  email = or_empty u.email;
  password_hash = or_empty u.password_hash;
  role = u.role;
  auth_source = u.auth_source;
  is_active = u.is_active;
}

abbrev pub has_username : String → UserRow → Bool
has_username name u = u.username == name

abbrev pub new_user : ℕ → String → String → String → String → String → UserRow
new_user id username email password_hash role auth_source = record {
  id = id;
  username = username;
  email = null_if_empty email;
  password_hash = null_if_empty password_hash;
  role = role;
  auth_source = auth_source;
  is_active = true;
  last_login_at = none;
}

abbrev pub is_role : String → Bool
is_role r = (r == "viewer") || ((r == "engineer") || (r == "admin"))

abbrev pub is_auth_source : String → Bool
is_auth_source s = (s == "local") || ((s == "proxy") || (s == "oidc"))

-- the INSERT of `Create`, with the UNIQUE of `username` and the enum casts
unfoldable pub insert_user : String → String → String → String → String → Query ℕ
insert_user username email password_hash role auth_source t =
    if any (has_username username) t.users || not (is_role role && is_auth_source auth_source)
    then err constraint
    else ok (
      t.next_id,
      record t {
        next_id = suc t.next_id;
        users = t.users ++ new_user t.next_id username email password_hash role auth_source ∷ [];
      },
    )

unfoldable pub create_user : String → String → String → String → String → Sql ℕ
unfolding insert_user
create_user username email password_hash role auth_source =
    exec (insert_user username email password_hash role auth_source)

abbrev pub or_error : {A : Type 0} → Error → Option A → Tables → Result (A × Tables)
or_error e none t = err e
or_error e (some a) t = ok (a, t)

abbrev pub find_user : String → Tables → Option UserRow
find_user username t = first (select (has_username username) t.users)

abbrev pub user_result : Option UserRow → Option User
user_result none = none
user_result (some u) = some (user_of u)

unfoldable pub find_by_username : String → Sql User
find_by_username username =
    exec (λ t. or_error user_not_found (user_result (find_user username t)) t)

unfoldable pub update_last_login : Time → ℕ → Sql Unit
update_last_login now id = exec (
    write (λ t. record t {
      users =
          update (λ (u : UserRow). eqb u.id id) (λ u. record u { last_login_at = some now })
            t.users;
    }))

-- ON CONFLICT (username) DO UPDATE SET last_login_at, RETURNING the row as it then is
upsert_user : Time → String → Option UserRow → Query User
upsert_user now username (some u) t = ok (
  user_of u,
  record t {
    users = update (has_username username) (λ r. record r { last_login_at = some now }) t.users;
  },
)
upsert_user now username none t =
    let u = new_user t.next_id username "" "" "viewer" "proxy" in
    ok (user_of u, record t { next_id = suc t.next_id; users = t.users ++ u ∷ [] })

unfoldable pub upsert_proxy_user : Time → String → Sql User
unfolding upsert_user
upsert_proxy_user now username = exec (λ t. upsert_user now username (find_user username t) t)

pub record Session : Type 0 where
  pub id : ℕ
  pub user_id : ℕ
  pub csrf_secret : String
  pub expires_at : Time

abbrev pub session_of : SessionRow → Session
session_of s = record {
  id = s.id;
  user_id = s.user_id;
  csrf_secret = s.csrf_secret;
  expires_at = s.expires_at;
}

-- A source of an intake webhook; "" stands for a secret that is not set.
pub record Source : Type 0 where
  pub id : ℕ
  pub name : String
  pub source_type : String
  pub auth_method : String
  pub token_hash : String
  pub hmac_secret : String

abbrev pub source_of : SourceRow → Source
source_of s = record {
  id = s.id;
  name = s.name;
  source_type = s.source_type;
  auth_method = s.auth_method;
  token_hash = or_empty s.token_hash;
  hmac_secret = or_empty s.hmac_secret;
}

unfoldable pub find_active : String → Sql Source
find_active name = exec (λ t.
    elim (first (select (λ (s : SourceRow). (s.name == name) && s.is_active) t.intake_sources)) [
      | none ↦ err source_not_found
      | some s ↦ ok (source_of s, t)
    ])

unfoldable pub touch_last_seen : Time → ℕ → Sql Unit
touch_last_seen now id = exec (
    write (λ t. record t {
      intake_sources =
          update (λ (s : SourceRow). eqb s.id id) (λ s. record s { last_seen_at = some now })
            t.intake_sources;
    }))

-- the first user with that id, if the account is active
abbrev pub active_user : ℕ → Tables → Option UserRow
active_user id t = first (select (λ (u : UserRow). eqb u.id id && u.is_active) t.users)

abbrev pub joined : SessionRow → Option UserRow → Option (Session × User) → Option (Session × User)
joined s none other = other
joined s (some u) other = some (session_of s, user_of u)

-- the join of sessions and users, over the sessions whose token and time fit
unfoldable pub join_user : Tables → List SessionRow → Option (Session × User)
join_user t [] = none
join_user t (s ∷ rest) = joined s (active_user s.user_id t) (join_user t rest)

module _ (hash_token : Text → String) where
  abbrev pub session_row : Time → ℕ → Time → String → String → ℕ → SessionRow
  session_row now user_id ttl token csrf id = record {
    id = id;
    user_id = user_id;
    token_hash = hash_token (codes token);
    csrf_secret = csrf;
    expires_at = now + ttl;
  }

  abbrev pub insert_session : Time → ℕ → Time → String → String → Query Unit
  insert_session now user_id ttl token csrf = write (λ t. record t {
    next_id = suc t.next_id;
    sessions = t.sessions ++ session_row now user_id ttl token csrf t.next_id ∷ [];
  })

  -- the INSERT of `Create`; the two tokens are what `randomToken` returned
  unfoldable pub create_session : Time → ℕ → Time → String → String → Sql String
  create_session now user_id ttl token csrf = do
    exec (insert_session now user_id ttl token csrf)
    pure token

  abbrev pub is_live : Time → String → SessionRow → Bool
  is_live now token s = (s.token_hash == hash_token (codes token)) && ltb now s.expires_at

  unfoldable pub resolve_session : Time → String → Sql (Session × User)
  unfolding join_user
  resolve_session now token =
      exec (λ t. or_error session_not_found (join_user t (select (is_live now token) t.sessions)) t)

  unfoldable pub delete_session : String → Sql Unit
  delete_session token = exec (
      write (λ t. record t {
        sessions = select (λ s. not (s.token_hash == hash_token (codes token))) t.sessions;
      }))

  abbrev pub shared_source : ℕ → String → String → String → SourceRow
  shared_source id name source_type token = record {
    id = id;
    name = name;
    source_type = source_type;
    auth_method = "shared_token";
    token_hash = some (hash_token (codes token));
    hmac_secret = none;
    is_active = true;
    last_seen_at = none;
  }

  -- a new source, or a new token for the one of that name
  abbrev pub with_source : String → String → String → Tables → Tables
  with_source name source_type token t =
      if any (λ (s : SourceRow). s.name == name) t.intake_sources
      then record t {
        intake_sources =
            update (λ s. s.name == name)
              (λ s. record s {
                source_type = source_type;
                auth_method = "shared_token";
                token_hash = some (hash_token (codes token));
                hmac_secret = none;
                is_active = true;
              })
              t.intake_sources;
      }
      else record t {
        next_id = suc t.next_id;
        intake_sources = t.intake_sources ++ shared_source t.next_id name source_type token ∷ [];
      }

  -- `UpsertSharedToken`, with the cast to the enum `alert_source`
  unfoldable pub upsert_shared_token : String → String → String → Sql String
  upsert_shared_token name source_type token = do
    exec (λ t.
        if is_alert_source source_type
        then ok (tt, with_source name source_type token t)
        else err constraint)
    pure token

  -- `VerifySharedToken`; a constant-time comparison is an equality
  unfoldable pub verify_shared_token : Source → Text → Bool
  verify_shared_token src presented =
      if (src.token_hash == "") || same presented []
      then false
      else hash_token presented == src.token_hash

module _ (mac : String → String → Text) (decode_hex : String → Option Text) where
  abbrev equal_mac : Text → Option Text → Bool
  equal_mac expected none = false
  equal_mac expected (some got) = same expected got

  -- `VerifyHMAC`, over HMAC-SHA256 and the hexadecimal decoder
  unfoldable pub verify_hmac : Source → String → String → Bool
  unfolding same
  verify_hmac src body signature =
      if (src.hmac_secret == "") || (signature == "")
      then false
      else equal_mac (mac src.hmac_secret body) (decode_hex signature)
