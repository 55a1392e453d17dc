-- ===== src/Store/Sql/Rules.antt =====
-- How to reason about statements: what holds of the tables when a chain of them succeeds, and what
-- every outcome keeps.
use mathlib.Core.Path.{subst}
use valaf.Common.{◌≡◌, refl, sym, ap, Bool-cases, inl, inr}
use valaf.Common.Effect.{Error, Result, ok, err, resume, ◌>>=◌, >>=-eq-ok}
use valaf.Store.Tables.{Tables}
use valaf.Store.Sql.{Conn, Sql, Query, fails_next, spend, finish_query, exec, settle, transaction}

module _ {A : Type 0} where
  -- the tables behind an outcome
  abbrev pub after : Result A × Conn → Tables
  after r = r.1.tables

  abbrev outcome : Tables → Result A → Result (A × Tables)
  outcome t (ok a) = ok (a, t)
  outcome t (err e) = err e

  finish_query-eq-ok :
      (r : Result (A × Tables)) (c c' : Conn) (a : A)
      → finish_query r c ≡ (ok a, c')
      → r ≡ ok (a, c'.tables)
  unfolding finish_query
  finish_query-eq-ok (ok (b, t)) c c' a h = ap (λ (x : Result A × Conn). outcome x.1.tables x.0) h
  finish_query-eq-ok (err e) c c' a h = cc

  -- A statement that succeeds has computed its query.
  pub exec-eq-ok :
      (q : Query A) (c : Conn) (a : A) (c' : Conn)
      → exec q c ≡ (ok a, c')
      → q c.tables ≡ ok (a, c'.tables)
  unfolding exec
  exec-eq-ok q c a c' h = elim (Bool-cases (fails_next c)) [
    | inl e ↦ cc (rw e at h)
    | inr e ↦ finish_query-eq-ok (q c.tables) (spend c) c' a (rw e at h)
  ]

  -- A statement that fails has changed no table.
  pub exec-err :
      (q : Query A) (c : Conn) (e : Error) (c' : Conn)
      → exec q c ≡ (err e, c')
      → c'.tables ≡ c.tables
  unfolding exec
  exec-err q c e c' h = elim (Bool-cases (fails_next c)) [
    | inl f ↦ sym (ap (λ (x : Result A × Conn). x.1.tables) (rw f at h))
    | inr f ↦ finish (q c.tables) (rw f at h)
  ]
    where
      finish :
          (r : Result (A × Tables)) → finish_query r (spend c) ≡ (err e, c') → c'.tables ≡ c.tables
      finish (ok (a, t)) k = unfold finish_query in cc k
      finish (err x) k = unfold finish_query in sym (ap (λ (x : Result A × Conn). x.1.tables) k)

  settle-err :
      (start : Tables) (r : Result A × Conn) (e : Error) (c' : Conn)
      → settle start r ≡ (err e, c')
      → c'.tables ≡ start
  unfolding settle
  settle-err start (err x, c) e c' h = sym (ap (λ (r : Result A × Conn). r.1.tables) h)
  settle-err start (ok a, c) e c' h = elim (Bool-cases (fails_next c)) [
    | inl f ↦ sym (ap (λ (r : Result A × Conn). r.1.tables) (rw f at h))
    | inr f ↦ cc (rw f at h)
  ]

  -- A transaction that returns an error has changed no table.
  pub transaction-err :
      (body : Sql A) (c : Conn) (e : Error) (c' : Conn)
      → transaction body c ≡ (err e, c')
      → c'.tables ≡ c.tables
  unfolding transaction
  transaction-err body c e c' h = elim (Bool-cases (fails_next c)) [
    | inl f ↦ sym (ap (λ (r : Result A × Conn). r.1.tables) (rw f at h))
    | inr f ↦ settle-err c.tables (body (spend c)) e c' (rw f at h)
  ]

-- If `m` succeeds from tables in `P`, its result and the tables that it leaves are in `Q`.
pub record Gives {A : Type 0} (P : Tables → Type 0) (m : Sql A) (Q : A → Tables → Type 0)
    : Type 0 where
  pub at : (c : Conn) (a : A) (c' : Conn) → P c.tables → m c ≡ (ok a, c') → Q a c'.tables

module _ {A : Type 0} (Q : A → Tables → Type 0) where
  Gives-settle :
      (start : Tables) (r : Result A × Conn) (a : A) (c' : Conn)
      → ((b : A) (d : Conn) → r ≡ (ok b, d) → Q b d.tables)
      → settle start r ≡ (ok a, c')
      → Q a c'.tables
  unfolding settle
  Gives-settle start (err x, c) a c' k h = cc
  Gives-settle start (ok b, c) a c' k h = elim (Bool-cases (fails_next c)) [
    | inl f ↦ cc (rw f at h)
    | inr f ↦ subst (λ x. Holds x) (rw f at h) (k b c refl)
  ]
    where
      Holds : Result A × Conn → Type 0
      Holds r = elim r.0 [ ok x ↦ Q x r.1.tables | err x ↦ Unit ]

module _ {A : Type 0} {P : Tables → Type 0} {Q : A → Tables → Type 0} where
  pub Gives-exec :
      (q : Query A)
      → ((t : Tables) (a : A) (t' : Tables) → P t → q t ≡ ok (a, t') → Q a t')
      → Gives P (exec q) Q
  Gives-exec q h = record { at = λ c a c' p e. h c.tables a c'.tables p (exec-eq-ok q c a c' e) }

  pub Gives-transaction : (body : Sql A) → Gives P body Q → Gives P (transaction body) Q
  unfolding transaction
  Gives-transaction body g = record {
    at = λ c a c' p h. elim (Bool-cases (fails_next c)) [
      | inl f ↦ cc (rw f at h)
      | inr f ↦
          Gives-settle Q c.tables (body (spend c)) a c' (λ b d e. g.at (spend c) b d p e)
            (rw f at h)
    ];
  }

module _ {A B : Type 0} {P : Tables → Type 0} {R : B → Tables → Type 0} where
  pub Gives-bind :
      (m : Sql A) (f : A → Sql B) (Q : A → Tables → Type 0)
      → Gives P m Q
      → ((a : A) → Gives (Q a) (f a) R)
      → Gives P (m >>= f) R
  Gives-bind m f Q g k = record {
    at = λ c b c' p h. let (a, d, e, h') = >>=-eq-ok m f c h in (k a).at d b c' (g.at c a d p e) h';
  }

module _ {A : Type 0} {P : Tables → Type 0} {Q : A → Tables → Type 0} where
  pub Gives-pure : (a : A) → ((t : Tables) → P t → Q a t) → Gives P (λ c. (ok a, c)) Q
  Gives-pure a h = record { at = λ c b c' p e. subst (λ x. Holds x) e (h c.tables p) }
    where
      Holds : Result A × Conn → Type 0
      Holds r = elim r.0 [ ok x ↦ Q x r.1.tables | err x ↦ Unit ]

-- Whatever the outcome, `m` keeps `P`.
pub record Keeps {A : Type 0} (P : Tables → Type 0) (m : Sql A) : Type 0 where
  pub at : (c : Conn) → P c.tables → P (m c).1.tables

module _ {A : Type 0} {P : Tables → Type 0} where
  pub Keeps-exec :
      (q : Query A)
      → ((t : Tables) (a : A) (t' : Tables) → P t → q t ≡ ok (a, t') → P t')
      → Keeps P (exec q)
  unfolding exec finish_query
  Keeps-exec q h = record {
    at = λ c p. elim (Bool-cases (fails_next c)) [
      | inl f ↦ rw f p
      | inr f ↦ rw f (go c (q c.tables) refl p)
    ];
  }
    where
      go :
          (c : Conn) (r : Result (A × Tables))
          → q c.tables ≡ r
          → P c.tables
          → P (finish_query r (spend c)).1.tables
      go c (ok (a, t)) e p = h c.tables a t p e
      go c (err x) e p = p

  pub Keeps-transaction : (body : Sql A) → Keeps P body → Keeps P (transaction body)
  unfolding transaction settle
  Keeps-transaction body k = record {
    at = λ c p. elim (Bool-cases (fails_next c)) [
      | inl f ↦ rw f p
      | inr f ↦ rw f (go c p (body (spend c)) (k.at (spend c) p))
    ];
  }
    where
      go :
          (c : Conn)
          → P c.tables
          → (r : Result A × Conn) → P r.1.tables
          → P (settle c.tables r).1.tables
      go c p (err x, d) q = p
      go c p (ok a, d) q = elim (Bool-cases (fails_next d)) [ inl f ↦ rw f p | inr f ↦ rw f q ]

module _ {A B : Type 0} {P : Tables → Type 0} where
  pub Keeps-bind :
      (m : Sql A) (f : A → Sql B) → Keeps P m → ((a : A) → Keeps P (f a)) → Keeps P (m >>= f)
  Keeps-bind m f km kf = record { at = λ c p. go (m c) (km.at c p) }
    where
      go : (r : Result A × Conn) → P r.1.tables → P (resume r f).1.tables
      go (ok a, d) p = (kf a).at d p
      go (err x, d) p = p

module _ {A : Type 0} {P : Tables → Type 0} where
  pub Keeps-pure : (a : A) → Keeps P (λ c. (ok a, c))
  Keeps-pure a = record { at = λ c p. p }

-- A query, from given tables, fails or leaves a result and tables in `Q`.
abbrev pub Holds : {A : Type 0} → (A → Tables → Type 0) → Result (A × Tables) → Type 0
Holds Q (ok (a, t)) = Q a t
Holds Q (err e) = Unit

module _ {A : Type 0} {P : Tables → Type 0} {Q : A → Tables → Type 0} where
  pub Gives-query : (q : Query A) → ((t : Tables) → P t → Holds Q (q t)) → Gives P (exec q) Q
  Gives-query q h = Gives-exec q (λ t a t' p e. subst (Holds Q) e (h t p))

module _ {A : Type 0} {P : Tables → Type 0} where
  pub Keeps-query : (q : Query A) → ((t : Tables) → P t → Holds (λ a. P) (q t)) → Keeps P (exec q)
  Keeps-query q h = Keeps-exec q (λ t a t' p e. subst (Holds {A = A} (λ a. P)) e (h t p))

-- A query that only reads leaves the tables alone, whatever its outcome.
pub exec_reads :
    {A : Type 0} (q : Query A) (c : Conn) (r : Result A) (d : Conn)
    → ((t : Tables) → Holds (λ _ t'. t' ≡ t) (q t))
    → exec q c ≡ (r, d)
    → d.tables ≡ c.tables
exec_reads q c (err e) d reads h = exec-err q c e d h
exec_reads q c (ok a) d reads h =
    subst (Holds (λ _ t'. t' ≡ c.tables)) (exec-eq-ok q c a d h) (reads c.tables)
