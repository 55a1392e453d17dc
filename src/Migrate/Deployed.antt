-- ===== src/Migrate/Deployed.antt =====
-- The schema is always what the recorded versions make of the empty one, in their order.
use valaf.Common.{
  String, ◌≡◌, refl, sym, ap, ◌∙◌, Option, none, some, List, [], ◌∷◌, ◌++◌, Bool-cases, inl, inr,
}
use valaf.Common.Effect.{Result, ok, err, Eff, resume, ◌>>=◌, ◌>>◌}
use valaf.Migrate.{
  File, Db, contains, fails_next, spend, listed, recorded, ask, ensure_table, select_versions,
  applied_versions, pending, insert_version, commit, apply, find_file, read_file, apply_all, run,
}

-- what every outcome keeps
abbrev pub Keeps : {S A : Type 0} → (Db S → Type 0) → Eff (Db S) A → Type 0
Keeps {S} P m = (d : Db S) → P d → P (m d).1

module _ {S : Type 0} (P : Db S → Type 0) where
  Keeps-bind :
      {A B : Type 0} (m : Eff (Db S) A) (f : A → Eff (Db S) B)
      → Keeps P m
      → ((a : A) → Keeps P (f a))
      → Keeps P (m >>= f)
  Keeps-bind {A} {B} m f km kf d p = go (m d) (km d p)
    where
      go : (r : Result A × Db S) → P r.1 → P (resume r f).1
      go (ok a, d') q = kf a d' q
      go (err e, d') q = q

  Keeps-ask :
      {A : Type 0} (q : Db S → Result A × Db S)
      → ((d : Db S) → P d → P (spend d))
      → Keeps P q
      → Keeps P (ask q)
  unfolding ask
  Keeps-ask q s k d p = elim (Bool-cases (fails_next d)) [
    | inl e ↦ rw e (s d p)
    | inr e ↦ rw e (k (spend d) (s d p))
  ]

abbrev pub and_then : {S : Type 0} → Option S → (S → Option S) → Option S
and_then none f = none
and_then (some s) f = f s

module _ {S : Type 0} (execute : String → S → Option S) (files : List File) where
  abbrev pub run_file : Option File → S → Option S
  run_file none s = none
  run_file (some f) s = execute f.body s

  -- the files of some versions, one after the other
  abbrev pub replay : List String → S → Option S
  replay [] s = some s
  replay (v ∷ rest) s = and_then (run_file (find_file files v) s) (replay rest)

  replay-append :
      (vs : List String) (v : String) (s s' s'' : S)
      → replay vs s ≡ some s'
      → run_file (find_file files v) s' ≡ some s''
      → replay (vs ++ v ∷ []) s ≡ some s''
  replay-append [] v s s' s'' h k =
      let e : s ≡ s' = cc in
      ap (λ o. and_then o (λ x. some x)) (ap (run_file (find_file files v)) e ∙ k)
  replay-append (w ∷ rest) v s s' s'' h k =
      go (run_file (find_file files w) s) (λ t. replay-append rest v t s' s'') h
    where
      go :
          (o : Option S)
          → ((t : S)
              → replay rest t ≡ some s'
              → run_file (find_file files v) s' ≡ some s''
              → replay (rest ++ v ∷ []) t ≡ some s'')
          → and_then o (replay rest) ≡ some s'
          → and_then o (replay (rest ++ v ∷ [])) ≡ some s''
      go none ih h = cc
      go (some t) ih h = ih t h k

  -- the schema is what the recorded versions make of `base`
  abbrev pub IsDeployed : S → Db S → Type 0
  IsDeployed base d = replay (recorded d) base ≡ some d.schema

  module _ (base : S) where
    insert_version-IsDeployed :
        (vo : Option (List String)) (v : String) (s : S) (d : Db S)
        → d.versions ≡ vo
        → run_file (find_file files v) d.schema ≡ some s
        → IsDeployed base d
        → IsDeployed base (insert_version vo v s d).1
    unfolding insert_version
    insert_version-IsDeployed none v s d n k p = p
    insert_version-IsDeployed (some vs) v s d n k p = elim (Bool-cases (contains vs v)) [
      | inl e ↦ rw e p
      | inr e ↦
          rw e (replay-append vs v base d.schema s (sym (ap (λ o. replay (listed o) base) n) ∙ p) k)
    ]

    apply-IsDeployed :
        (v : String) (f : File)
        → find_file files v ≡ some f
        → Keeps (IsDeployed base) (apply execute v f.body)
    unfolding apply commit
    apply-IsDeployed v f found =
        Keeps-bind (IsDeployed base) (ask (λ d. (ok tt, d)))
          (λ _. ask (λ d. commit (execute f.body d.schema) v d))
          (Keeps-ask (IsDeployed base) (λ d. (ok tt, d)) (λ d p. p) (λ d p. p))
          (λ _.
            Keeps-ask (IsDeployed base) (λ d. commit (execute f.body d.schema) v d) (λ d p. p)
              (λ d p. committed d p (execute f.body d.schema) refl))
      where
        committed :
            (d : Db S)
            → IsDeployed base d
            → (o : Option S) → execute f.body d.schema ≡ o
            → IsDeployed base (commit o v d).1
        committed d p none e = p
        committed d p (some s) e =
            insert_version-IsDeployed d.versions v s d refl
              (ap (λ o. run_file o d.schema) found ∙ e) p

    apply_all-IsDeployed : (vs : List String) → Keeps (IsDeployed base) (apply_all execute files vs)
    unfolding apply_all
    apply_all-IsDeployed [] = λ d p. p
    apply_all-IsDeployed (v ∷ rest) = go (find_file files v) refl (apply_all-IsDeployed rest)
      where
        go :
            (o : Option File)
            → find_file files v ≡ o
            → Keeps (IsDeployed base) (apply_all execute files rest)
            → Keeps (IsDeployed base) (
                read_file {S = S} o >>= λ body.
                apply execute v body >> apply_all execute files rest)
        go none e tail = λ d p. unfold read_file in p
        go (some f) e tail =
            unfold read_file in
            Keeps-bind (IsDeployed base) (apply execute v f.body)
              (λ _. apply_all execute files rest) (apply-IsDeployed v f e) (λ _. tail)

    -- Whatever happens on the way, a run of the migrations leaves a schema that is what the versions
    -- on record make of the schema before all migrations, in the order of their records, if it
    -- started from such a schema.
    pub run-IsDeployed : Keeps (IsDeployed base) (run execute files)
    unfolding run applied_versions
    run-IsDeployed =
        Keeps-bind (IsDeployed base) (ask ensure_table)
          (λ _. ask select_versions >>= λ applied. apply_all execute files (pending files applied))
          (Keeps-ask (IsDeployed base) ensure_table (λ d p. p) (λ d p. p))
          (λ _.
            Keeps-bind (IsDeployed base) (ask select_versions)
              (λ applied. apply_all execute files (pending files applied))
              (Keeps-ask (IsDeployed base) select_versions (λ d p. p) (λ d p. p))
              (λ applied. apply_all-IsDeployed (pending files applied)))
