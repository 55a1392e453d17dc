-- ===== src/Web/Guards.antt =====
-- Who gets past the guards of internal/web: the review routes, the webhook and the login.
use valaf.Common.{
  ℕ, ◌+◌, ◌≤◌, ◌≡◌, refl, ap, ◌∙◌, [], ◌∷◌, ◌++◌, String, Bool, true, false, ◌&&◌, Bool-cases, ◌⊎◌,
  inl, inr, Option, none, some, arith, ◌==◌,
}
use valaf.Common.Text.{Text, codes}
use valaf.Common.Maps.{Map, get}
use valaf.Common.Effect.{Error, Result, ok, err}
use valaf.Core.Alert.{Time}
use valaf.Core.Intake.{IntakeAdapter, Service}
use valaf.Store.Tables.{SessionRow, Tables}
use valaf.Store.Sql.{Conn, Sql}
use valaf.Store.Accounts.{User, Source, find_by_username, find_active, create_session, session_row}
use valaf.Store.Accounts.Sessions.{
  find_by_username_reads, find_active_reads, Created, create_session_outcome,
  update_last_login-Keeps,
}
use valaf.Web.Http.{AuthUser, Request, Response, refusal, redirect, logged_in, Handler}
use valaf.Web.Auth.{
  AuthConfig, role_at_least, guard_role, require_role, check_csrf, with_session, may_login,
  refuse_lookup, check_login, login,
}
use valaf.Web.Intake.{authenticate, refuse_source, serve_source, serve_body, webhook}
use valaf.Web.Review.{
  can_edit, hypothesis_verdict, flag_evidence_handler, save_resolution_handler, verdict_route,
  flag_route, resolution_route,
}

-- a response that refuses the request: the login page, or a status of 400 and above
abbrev pub IsRefusal : Response → Type 0
IsRefusal (refusal status text) = 400 ≤ status
IsRefusal (redirect url) = url ≡ "/login"
IsRefusal _ = ⊥

-- the handler refuses the request and leaves the store alone
abbrev pub Refuses : Handler → Request → Conn → Type 0
Refuses h r c = IsRefusal (h r c).0 × ((h r c).1 ≡ c)

guard_role-Refuses :
    (next : Handler) (u : Option AuthUser) (r : Request) (c : Conn)
    → ((check_csrf r ≡ false) → Refuses next r c)
    → elim u [ none ↦ false | some x ↦ role_at_least x.role "engineer" ] && check_csrf r ≡ false
    → Refuses (guard_role "engineer" next u) r c
unfolding guard_role
guard_role-Refuses next none r c f h = (refl, refl)
guard_role-Refuses next (some u) r c f h = elim (Bool-cases (role_at_least u.role "engineer")) [
  | inl e ↦ rw e (f (rw e at h))
  | inr e ↦ rw e (omega arith, refl)
]

module _ (load_notebook : ℕ → Sql Unit) (now : Time) (r : Request) (c : Conn) where
  -- A request to give a verdict, to flag evidence or to save a resolution that has no principal, a
  -- principal below the role of an engineer, or no valid CSRF token is refused, and the store stays
  -- as it is.
  pub review_routes-Refuses :
      can_edit r && check_csrf r ≡ false
      → Refuses (verdict_route load_notebook now) r c
        × Refuses (flag_route load_notebook now) r c
        × Refuses (resolution_route load_notebook now) r c
  unfolding verdict_route flag_route resolution_route require_role can_edit hypothesis_verdict
      flag_evidence_handler save_resolution_handler
  review_routes-Refuses h = (
    guard_role-Refuses (hypothesis_verdict load_notebook now) r.user r c
        (λ e. rw e (omega arith, refl)) h,
    guard_role-Refuses (flag_evidence_handler load_notebook now) r.user r c
        (λ e. rw e (omega arith, refl)) h,
    guard_role-Refuses (save_resolution_handler load_notebook now) r.user r c
        (λ e. rw e (omega arith, refl)) h,
  )

module _ (hash_token : Text → String) (verify_password : String → String → Bool) (cfg : AuthConfig)
    (now : Time) (token csrf : String) where
  -- the account passed every check of the login
  abbrev pub Admitted : Request → User → Type 0
  Admitted r u =
      (u.is_active ≡ true)
      × ((u.password_hash == "") ≡ false)
      × (verify_password (get r.form "password") u.password_hash ≡ true)

  abbrev pub LoginOutcome : Request → Conn → Response → Conn → Type 0
  LoginOutcome r c resp c' =
      ((u : User) × (d : Conn) × (find_by_username (get r.form "username") c ≡ (ok u, d))
        × Admitted r u
        × (resp ≡ logged_in token)
        × (row : SessionRow) × (c'.tables.sessions ≡ c.tables.sessions ++ row ∷ [])
        × (row.user_id ≡ u.id)
        × (row.token_hash ≡ hash_token (codes token))
        × (row.csrf_secret ≡ csrf)
        × (row.expires_at ≡ now + cfg.session_ttl))
      ⊎ (IsRefusal resp × (c'.tables ≡ c.tables))

  admitted :
      (r : Request) (u : User)
      → may_login hash_token verify_password (get r.form "password") u ≡ true
      → Admitted r u
  admitted r u h = ground arith

  session_outcome :
      (r : Request) (c : Conn) (u : User) (d : Conn) (res : Result String) (c1 : Conn)
      → find_by_username (get r.form "username") c ≡ (ok u, d)
      → Admitted r u
      → Created hash_token now u.id cfg.session_ttl token csrf d.tables res c1.tables
      → LoginOutcome r c
          (with_session hash_token verify_password now u (res, c1)).0
          (with_session hash_token verify_password now u (res, c1)).1
  session_outcome r c u d (ok t) c1 found a (inl (e, id, added)) =
      let same = find_by_username_reads (get r.form "username") c (ok u) d found in
      inl (
        u,
        d,
        found,
        a,
        ground (arith, e),
        session_row hash_token now u.id cfg.session_ttl token csrf id,
        (update_last_login-Keeps now u.id c1.tables.sessions).at c1 refl
            ∙ added
            ∙ ap
                (λ (t : Tables).
                  t.sessions ++ session_row hash_token now u.id cfg.session_ttl token csrf id ∷ [])
                same,
        refl,
        refl,
        refl,
        refl,
      )
  session_outcome r c u d (err e) c1 found a (inr (x, p, same)) =
      inr (omega arith, same ∙ find_by_username_reads (get r.form "username") c (ok u) d found)
  session_outcome r c u d (ok t) c1 found a (inr (x, p, same)) = cc
  session_outcome r c u d (err e) c1 found a (inl (p, id, added)) = cc

  refused_lookup : (e : Error) → IsRefusal (refuse_lookup hash_token verify_password e)
  refused_lookup e = ground arith

  checked :
      (r : Request) (c : Conn) (res : Result User) (d : Conn)
      → find_by_username (get r.form "username") c ≡ (res, d)
      → LoginOutcome r c
          (check_login hash_token verify_password cfg now
            (get r.form "password")
            token
            csrf
            (res, d)).0
          (check_login hash_token verify_password cfg now
            (get r.form "password")
            token
            csrf
            (res, d)).1
  unfolding check_login
  checked r c (err e) d found =
      inr (refused_lookup e, find_by_username_reads (get r.form "username") c (err e) d found)
  checked r c (ok u) d found =
      elim (Bool-cases (may_login hash_token verify_password (get r.form "password") u)) [
        | inl e ↦
            let (res, c1) = create_session hash_token now u.id cfg.session_ttl token csrf d in
            rw e (
              session_outcome r c u d res c1 found (admitted r u e) (
                create_session_outcome hash_token now u.id cfg.session_ttl token csrf d res c1
                  refl))
        | inr e ↦
            rw e
              (inr (omega arith, find_by_username_reads (get r.form "username") c (ok u) d found))
      ]

  -- A login answers with a session only for an account that is found by its name, is active, has a
  -- password hash, and whose hash verifies the password. The table of sessions has then grown by exactly
  -- one row: of that account's id, with the hash of the fresh token, the fresh secret against CSRF and
  -- the time of expiry, and the response hands out that token. Otherwise the response is a refusal and
  -- no table changes.
  pub login_outcomes :
      (r : Request) (c : Conn)
      → LoginOutcome r c
          (login hash_token verify_password cfg now token csrf r c).0
          (login hash_token verify_password cfg now token csrf r c).1
  unfolding login
  login_outcomes r c =
      let (res, d) = find_by_username (get r.form "username") c in checked r c res d refl

module _ (hash_token : Text → String) (mac : String → String → Text)
    (decode_hex : String → Option Text) (svc : Service Conn) (adapters : Map IntakeAdapter)
    (now : Time) (r : Request) where
  -- The webhook knew the source and the request was authentic, or it was refused and nothing was
  -- ingested.
  abbrev pub Guarded : Conn → Response × Conn → Type 0
  Guarded c out =
      ((body : String) × (src : Source) × (d : Conn) × (r.body ≡ some body)
        × (find_active r.source c ≡ (ok src, d))
        × (authenticate hash_token mac decode_hex src r body ≡ true))
      ⊎ (IsRefusal out.0 × (out.1.tables ≡ c.tables))

  refused_source : (e : Error) → IsRefusal (refuse_source hash_token mac decode_hex e)
  refused_source e = ground arith

  serve_source-Guarded :
      (c : Conn) (body : String) (res : Result Source) (d : Conn)
      → r.body ≡ some body
      → find_active r.source c ≡ (res, d)
      → Guarded c (serve_source hash_token mac decode_hex svc adapters now r body (res, d))
  unfolding serve_source
  serve_source-Guarded c body (err e) d b found =
      inr (refused_source e, find_active_reads r.source c (err e) d found)
  serve_source-Guarded c body (ok src) d b found =
      elim (Bool-cases (authenticate hash_token mac decode_hex src r body)) [
        | inl e ↦ inl (body, src, d, b, found, e)
        | inr e ↦ rw e (inr (omega arith, find_active_reads r.source c (ok src) d found))
      ]

  serve_body-Guarded :
      (c : Conn) (o : Option String)
      → r.body ≡ o
      → Guarded c (serve_body hash_token mac decode_hex svc adapters now r o c)
  unfolding serve_body
  serve_body-Guarded c none b = inr (omega arith, refl)
  serve_body-Guarded c (some body) b =
      let (res, d) = find_active r.source c in serve_source-Guarded c body res d b refl

  -- A delivery to the webhook whose body cannot be read, whose source is unknown or inactive, or that
  -- fails the source's authentication is refused, and no table changes: nothing is parsed into an
  -- incident and the source is not even marked as seen.
  pub webhook-Guarded :
      (c : Conn) → Guarded c (webhook hash_token mac decode_hex svc adapters now r c)
  unfolding webhook
  webhook-Guarded c = serve_body-Guarded c r.body refl
