-- ===== src/Store/Accounts/Sessions.antt =====
-- What the statements on accounts leave alone, and how a session comes and goes.
use valaf.Common.{
  ℕ, suc, ◌+◌, ◌<◌, ◌≡◌, refl, sym, ap, ◌∙◌, String, Bool, false, ◌&&◌, not, Bool-cases, ◌⊎◌, inl,
  inr, Option, none, some, List, [], ◌∷◌, ◌++◌, update, eqb, select, select-append, All, lt→ltb,
  first, ◌==◌, eq_refl,
}
use valaf.Common.Text.{Text, codes}
use valaf.Common.Effect.{
  Error, Result, ok, err, user_not_found, session_not_found, source_not_found, pure, resume,
}
use valaf.Core.Alert.{Time}
use valaf.Store.Tables.{UserRow, SessionRow, SourceRow, Tables}
use valaf.Store.Sql.{Conn, up, write, exec, finish_query}
use valaf.Store.Sql.Rules.{Keeps, Keeps-query, exec-eq-ok, exec-err, exec_reads, Holds}
use valaf.Store.Accounts.{
  User, Source, Session, user_of, user_result, or_error, find_user, find_by_username, find_active,
  create_session, active_user, join_user, is_live, resolve_session, delete_session, session_of,
  source_of, session_row, insert_session, update_last_login,
}

pub find_by_username_reads :
    (name : String) (c : Conn) (r : Result User) (d : Conn)
    → find_by_username name c ≡ (r, d)
    → d.tables ≡ c.tables
unfolding find_by_username
find_by_username_reads name c r d h =
    exec_reads (λ t. or_error user_not_found (user_result (find_user name t)) t) c r d
      (λ t. go t (find_user name t)) h
  where
    go :
        (t : Tables) (o : Option UserRow)
        → Holds (λ _ t'. t' ≡ t) (or_error user_not_found (user_result o) t)
    go t none = tt
    go t (some u) = refl

pub find_active_reads :
    (name : String) (c : Conn) (r : Result Source) (d : Conn)
    → find_active name c ≡ (r, d)
    → d.tables ≡ c.tables
unfolding find_active
find_active_reads name c r d h =
    exec_reads
      (λ t.
        found t
          (first (select (λ (s : SourceRow). (s.name == name) && s.is_active) t.intake_sources)))
      c r d
      (λ t.
        go t (first (select (λ (s : SourceRow). (s.name == name) && s.is_active) t.intake_sources)))
      h
  where
    found : Tables → Option SourceRow → Result (Source × Tables)
    found t o = elim o [ none ↦ err source_not_found | some s ↦ ok (source_of s, t) ]

    go : (t : Tables) (o : Option SourceRow) → Holds (λ _ t'. t' ≡ t) (found t o)
    go t none = tt
    go t (some u) = refl

-- Noting the time of a login keeps the sessions, whatever its outcome.
pub update_last_login-Keeps :
    (now : Time) (id : ℕ) (rows : List SessionRow)
    → Keeps (λ t. t.sessions ≡ rows) (update_last_login now id)
unfolding update_last_login
update_last_login-Keeps now id rows =
    Keeps-query
      (write (λ t. record t {
        users =
            update (λ (u : UserRow). eqb u.id id) (λ u. record u { last_login_at = some now })
              t.users;
      }))
      (λ t p. p)

module _ (hash_token : Text → String) where
  -- no session has the token's hash
  abbrev pub IsUnused : String → List SessionRow → Type 0
  IsUnused token rows = All (λ s. (s.token_hash == hash_token (codes token)) ≡ false) rows

  select_unused :
      (later : Time) (token : String) (rows : List SessionRow)
      → IsUnused token rows
      → select (is_live hash_token later token) rows ≡ []
  select_unused later token [] h = refl
  select_unused later token (s ∷ rest) h = rw (h.0) (select_unused later token rest h.1)

  join_one :
      (t : Tables) (s : SessionRow) (u : UserRow)
      → active_user s.user_id t ≡ some u
      → join_user t (s ∷ []) ≡ some (session_of s, user_of u)
  unfolding join_user
  join_one t s u active = rw active refl

  join_fresh :
      (now later ttl : Time) (user_id : ℕ) (token csrf : String) (t : Tables) (id : ℕ) (u : UserRow)
      (t' : Tables)
      → active_user user_id t' ≡ some u
      → IsUnused token t.sessions
      → later < now + ttl
      → join_user t' (
          select
            (is_live hash_token later token)
            (t.sessions ++ session_row hash_token now user_id ttl token csrf id ∷ []))
        ≡ some (session_of (session_row hash_token now user_id ttl token csrf id), user_of u)
  unfolding join_user
  join_fresh now later ttl user_id token csrf t id u t' active unused live = rw select-append (
      rw (select_unused later token t.sessions unused) (
        rw eq_refl (
          rw (lt→ltb later (now + ttl) live)
            (join_one t' (session_row hash_token now user_id ttl token csrf id) u active))))

  -- On a connection that does not fail, a session that was created for an active user with a token
  -- whose hash no session had is resolved by that token, before it expires, to that user and to the
  -- secret against CSRF with which it was created; and the two calls succeed.
  pub create_session-resolve :
      (now later ttl : Time) (user_id : ℕ) (token csrf : String) (t : Tables) (u : UserRow)
      → active_user user_id t ≡ some u
      → IsUnused token t.sessions
      → later < now + ttl
      → (t' : Tables) × (s : Session) × (create_session hash_token now user_id ttl token csrf (up t)
          ≡ (ok token, up t'))
        × (resolve_session hash_token later token (up t') ≡ (ok (s, user_of u), up t'))
        × (s.csrf_secret ≡ csrf)
        × (s.user_id ≡ user_id)
  unfolding create_session resolve_session exec finish_query
  create_session-resolve now later ttl user_id token csrf t u active unused live =
      let row = session_row hash_token now user_id ttl token csrf t.next_id in
      let t' : Tables = record t { next_id = suc t.next_id; sessions = t.sessions ++ row ∷ [] } in
      (
        t',
        session_of row,
        refl,
        rw (join_fresh now later ttl user_id token csrf t t.next_id u t' active unused live) refl,
        refl,
        refl,
      )

  abbrev keeps_token : String → SessionRow → Bool
  keeps_token token s = not (s.token_hash == hash_token (codes token))

  select_deleted :
      (later : Time) (token : String) (rows : List SessionRow)
      → select (is_live hash_token later token) (select (keeps_token token) rows) ≡ []
  select_deleted later token [] = refl
  select_deleted later token (s ∷ rest) =
      elim (Bool-cases (s.token_hash == hash_token (codes token))) [
        | inl e ↦ rw e (select_deleted later token rest)
        | inr e ↦ rw e (rw e (select_deleted later token rest))
      ]

  -- After a logout has deleted a token's session on a connection that does not fail, the token is
  -- resolved at no time.
  pub delete_session-resolve :
      (later : Time) (token : String) (t : Tables)
      → (t' : Tables) × (delete_session hash_token token (up t) ≡ (ok tt, up t'))
        × (resolve_session hash_token later token (up t') ≡ (err session_not_found, up t'))
  unfolding delete_session resolve_session exec finish_query join_user
  delete_session-resolve later token t = (
    record t { sessions = select (keeps_token token) t.sessions },
    refl,
    rw (select_deleted later token t.sessions) refl,
  )

  abbrev sessions_of : Result (Unit × Tables) → List SessionRow
  sessions_of (ok (u, t)) = t.sessions
  sessions_of (err e) = []

  -- A call that creates a session adds the row of the given user, token, secret and time; one that does
  -- not leaves the tables alone.
  abbrev pub Created : Time → ℕ → Time → String → String → Tables → Result String → Tables → Type 0
  Created now user_id ttl token csrf t r t' =
      ((r ≡ ok token)
        × (id : ℕ) × (t'.sessions
            ≡ t.sessions ++ session_row hash_token now user_id ttl token csrf id ∷ []))
      ⊎ ((e : Error) × (r ≡ err e) × (t' ≡ t))

  pub create_session_outcome :
      (now : Time) (user_id : ℕ) (ttl : Time) (token csrf : String) (c : Conn) (r : Result String)
      (c' : Conn)
      → create_session hash_token now user_id ttl token csrf c ≡ (r, c')
      → Created now user_id ttl token csrf c.tables r c'.tables
  unfolding create_session
  create_session_outcome now user_id ttl token csrf c r c' h =
      go (exec (insert_session hash_token now user_id ttl token csrf) c) refl h
    where
      go :
          (m : Result Unit × Conn)
          → exec (insert_session hash_token now user_id ttl token csrf) c ≡ m
          → resume m (λ _. pure token) ≡ (r, c')
          → Created now user_id ttl token csrf c.tables r c'.tables
      go (ok u, d) e k =
          let inserted =
            exec-eq-ok (insert_session hash_token now user_id ttl token csrf) c u d e in
          inl (
            sym (ap (λ (y : Result String × Conn). y.0) k),
            c.tables.next_id,
            ap (λ (y : Result String × Conn). y.1.tables.sessions) (sym k)
                ∙ sym (ap sessions_of inserted),
          )
      go (err x, d) e k = inr (
        x,
        sym (ap (λ (y : Result String × Conn). y.0) k),
        ap (λ (y : Result String × Conn). y.1.tables) (sym k)
            ∙ exec-err (insert_session hash_token now user_id ttl token csrf) c x d e,
      )
