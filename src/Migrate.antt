-- ===== src/Migrate.antt =====
-- internal/migrate/migrate.go: the versions that are not recorded yet are applied in lexical order,
-- each in a transaction that also records it. The files are those that the build embeds, and
-- `execute` is what the server makes of the SQL in one of them; a schema that it refuses is left as
-- it was.
pub mod Deployed
pub mod Fresh
pub mod Again
use valaf.Common.{
  ℕ, String, Bool, true, false, ◌&&◌, ◌||◌, not, Option, none, some, List, [], ◌∷◌, ◌++◌, map,
  select, any, first, ◌==◌, if◌then◌else◌,
}
use valaf.Common.Text.{codes, has_suffix}
use valaf.Common.Order.{sort_texts}
use valaf.Common.Effect.{
  Error, Result, ok, err, database, constraint, message, Eff, pure, ◌>>=◌, ◌>>◌,
}

pub record File : Type 0 where
  pub name : String
  pub is_dir : Bool
  pub body : String

-- `versions` is none before the table schema_migrations exists; `faults` says which of the coming
-- round trips to the server fail
pub record Db (S : Type 0) : Type 0 where
  pub versions : Option (List String)
  pub schema : S
  pub faults : List Bool

abbrev pub contains : List String → String → Bool
contains vs name = any (λ v. v == name) vs

unfoldable pub is_pending : List String → File → Bool
unfolding has_suffix
is_pending applied f =
    not f.is_dir && (has_suffix (codes f.name) (codes ".sql") && not (contains applied f.name))

unfoldable pub pending : List File → List String → List String
unfolding sort_texts is_pending
pending files applied = sort_texts (map (λ f. f.name) (select (is_pending applied) files))

-- a SELECT from the table
abbrev pub rows_of : Option (List String) → Result (List String)
rows_of none = err database
rows_of (some vs) = ok vs

abbrev pub listed : Option (List String) → List String
listed none = []
listed (some vs) = vs

module _ {S : Type 0} where
  abbrev pub fails_next : Db S → Bool
  fails_next d = elim d.faults [ [] ↦ false | ◌∷◌ b rest ↦ b ]

  abbrev pub spend : Db S → Db S
  spend d = record d { faults = elim d.faults [ [] ↦ [] | ◌∷◌ b rest ↦ rest ] }

  -- one round trip: a fault, or an answer
  unfoldable pub ask : {A : Type 0} → (Db S → Result A × Db S) → Eff (Db S) A
  ask q d = if fails_next d then (err database, spend d) else q (spend d)

  abbrev pub recorded : Db S → List String
  recorded d = listed d.versions

  -- CREATE TABLE IF NOT EXISTS schema_migrations
  abbrev pub ensure_table : Db S → Result Unit × Db S
  ensure_table d = (ok tt, record d { versions = some (recorded d) })

  abbrev pub select_versions : Db S → Result (List String) × Db S
  select_versions d = (rows_of d.versions, d)

  unfoldable pub applied_versions : Eff (Db S) (List String)
  unfolding ask
  applied_versions = ask select_versions

module _ {S : Type 0} where
  -- INSERT INTO schema_migrations, with its primary key
  unfoldable pub insert_version : Option (List String) → String → S → Db S → Result Unit × Db S
  insert_version none v s d = (err database, d)
  insert_version (some vs) v s d =
      if contains vs v
      then (err constraint, d)
      else (ok tt, record d { versions = some (vs ++ v ∷ []); schema = s })

  -- the outcome of BEGIN; body; INSERT; COMMIT: all of it, or nothing
  unfoldable pub commit : Option S → String → Db S → Result Unit × Db S
  unfolding insert_version
  commit none v d = (err database, d)
  commit (some s) v d = insert_version d.versions v s d

module _ {S : Type 0} (execute : String → S → Option S) where
  -- pool.Acquire, then the batch
  unfoldable pub apply : String → String → Eff (Db S) Unit
  unfolding ask commit
  apply version body = ask (λ d. (ok tt, d)) >> ask (λ d. commit (execute body d.schema) version d)

abbrev pub find_file : List File → String → Option File
find_file files v = first (select (λ (f : File). f.name == v) files)

unfoldable pub read_file : {S : Type 0} → Option File → Eff (Db S) String
read_file none = λ d. (err (message "file does not exist"), d)
read_file (some f) = pure f.body

module _ {S : Type 0} (execute : String → S → Option S) (files : List File) where
  -- the loop over the versions
  unfoldable pub apply_all : List String → Eff (Db S) Unit
  unfolding apply read_file
  apply_all [] = pure tt
  apply_all (v ∷ rest) = do
    body ← read_file (find_file files v)
    apply execute v body
    apply_all rest

  unfoldable pub run : Eff (Db S) Unit
  unfolding ask applied_versions pending apply_all
  run = do ask ensure_table; applied ← applied_versions; apply_all (pending files applied)
