-- ===== src/Store/Sql.antt =====
-- Statements and transactions of github.com/jackc/pgx on a connection that may fail. `faults` says
-- for each statement to come, a BEGIN and a COMMIT included, whether the connection fails at it; a
-- statement that fails changes nothing, and an error in a transaction rolls it back.
pub mod Rules
use valaf.Common.{
  ℕ, String, Bool, true, false, Option, none, some, List, [], ◌∷◌, ◌==◌, if◌then◌else◌,
}
use valaf.Common.Effect.{Error, Result, ok, err, database, no_rows, Eff, ◌>>=◌, ◌>>◌}
use valaf.Store.Tables.{Tables}

-- Which strings of Go the server takes for a column of type text or jsonb: a parameter of the statements
-- that store what other services sent. It refuses NUL and invalid UTF-8, and for jsonb what is no JSON
-- or has the escape \u0000.
pub record Server : Type 0 where
  pub is_text : String → Bool
  pub is_jsonb : String → Bool

pub record Conn : Type 0 where
  pub tables : Tables
  pub faults : List Bool

abbrev pub Sql : Type 0 → Type 0
Sql A = Eff Conn A

-- what a statement computes from the tables
abbrev pub Query : Type 0 → Type 0
Query A = Tables → Result (A × Tables)

-- a connection that does not fail
abbrev pub up : Tables → Conn
up t = record { tables = t; faults = [] }

abbrev pub fails_next : Conn → Bool
fails_next c = elim c.faults [ [] ↦ false | ◌∷◌ b rest ↦ b ]

abbrev pub spend : Conn → Conn
spend c = record c { faults = elim c.faults [ [] ↦ [] | ◌∷◌ b rest ↦ rest ] }

module _ {A : Type 0} where
  unfoldable pub finish_query : Result (A × Tables) → Conn → Result A × Conn
  finish_query (ok (a, t)) c = (ok a, record c { tables = t })
  finish_query (err e) c = (err e, c)

  -- one statement
  unfoldable pub exec : Query A → Sql A
  unfolding finish_query
  exec q c = if fails_next c then (err database, spend c) else finish_query (q c.tables) (spend c)

  -- COMMIT, or the deferred ROLLBACK to the tables at BEGIN
  unfoldable pub settle : Tables → Result A × Conn → Result A × Conn
  settle start (err e, c) = (err e, record c { tables = start })
  settle start (ok a, c) =
      if fails_next c then (err database, record (spend c) { tables = start }) else (ok a, spend c)

  -- pool.Begin, the body, tx.Commit
  unfoldable pub transaction : Sql A → Sql A
  unfolding settle
  transaction body c =
      if fails_next c then (err database, spend c) else settle c.tables (body (spend c))

  -- QueryRow(...).Scan(...): the first row, or ErrNoRows
  abbrev pub one_row : Option A → Result A
  one_row none = err no_rows
  one_row (some a) = ok a

-- a SELECT leaves the tables alone
abbrev pub read : {A : Type 0} → (Tables → A) → Query A
read f t = ok (f t, t)

abbrev pub write : (Tables → Tables) → Query Unit
write f t = ok (tt, f t)

-- `nullIfEmpty`
abbrev pub null_if_empty : String → Option String
null_if_empty s = if s == "" then none else some s

-- COALESCE(x, '')
abbrev pub or_empty : Option String → String
or_empty none = ""
or_empty (some s) = s
