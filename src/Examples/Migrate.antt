-- ===== src/Examples/Migrate.antt =====
-- The migrations on concrete files.
use valaf.Common.{
  ◌≡◌, refl, true, false, inl, inr, ◌==◌, eq_iff, none, some, Option, String, List, [], ◌∷◌, map,
}
use valaf.Common.Order.{sort_texts, less_text}
use valaf.Common.Effect.{ok}
use valaf.Migrate.{File, Db, pending, run}
use valaf.Migrate.Deployed.{replay, IsDeployed, run-IsDeployed}
use valaf.Migrate.Fresh.{AreDistinct}
use valaf.Migrate.Again.{healthy, run_twice}

-- two migrations, listed in the wrong order, and a file that is none
abbrev files : List File
files =
    record { name = "0002_jobs.sql"; is_dir = false; body = "jobs" }
    ∷ record { name = "0001_init.sql"; is_dir = false; body = "init" }
    ∷ record { name = "notes.txt"; is_dir = false; body = "" }
    ∷ []

-- a schema is the list of the bodies that made it
abbrev execute : String → List String → Option (List String)
execute body s = some (body ∷ s)

abbrev versions : List String
versions = pending files []

in_order : versions ≡ "0001_init.sql" ∷ "0002_jobs.sql" ∷ []
unfolding pending sort_texts less_text
in_order = refl

-- a run in which the second round trip of the first file fails
abbrev cut : Db (List String)
cut = record { versions = none; schema = []; faults = false ∷ false ∷ false ∷ true ∷ [] }

run-IsDeployed_example : IsDeployed execute files [] (run execute files cut).1
run-IsDeployed_example = run-IsDeployed execute files [] cut refl

replayed : replay execute files versions [] ≡ some ("jobs" ∷ "init" ∷ [])
unfolding pending sort_texts less_text
replayed = refl

abbrev Other : String → String → Type 0
Other a b = a ≡ b → ⊥

other : (a b : String) → (a == b) ≡ false → Other a b
other a b h = λ e. let q : (a == b) ≡ true = (eq_iff a b).1 e in cc

distinct : AreDistinct (map (λ f. f.name) files)
distinct = (
  λ i. elim i [
    | inl e ↦ other "0002_jobs.sql" "0001_init.sql" refl e
    | inr j ↦ elim j [ inl e ↦ other "0002_jobs.sql" "notes.txt" refl e | inr k ↦ k ]
  ],
  (λ i. elim i [ inl e ↦ other "0001_init.sql" "notes.txt" refl e | inr k ↦ k ], ((λ i. i), tt)),
)

run_twice_example :
    (run execute files (healthy none []) ≡ (ok tt, healthy (some versions) ("jobs" ∷ "init" ∷ [])))
    × (run execute files (healthy (some versions) ("jobs" ∷ "init" ∷ []))
        ≡ (ok tt, healthy (some versions) ("jobs" ∷ "init" ∷ [])))
run_twice_example = run_twice execute files none [] ("jobs" ∷ "init" ∷ []) distinct replayed
