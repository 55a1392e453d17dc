-- ===== src/Migrate/Again.antt =====
-- A run of the migrations on a server that answers applies what is pending, and a second one does
-- nothing.
use valaf.Common.{
  String, false, ◌≡◌, refl, sym, ap, ◌∙◌, Option, none, some, List, [], ◌∷◌, ◌++◌, map,
  Option-cases, inl, inr,
}
use mathlib.Core.List.{append_assoc, append-nil}
use valaf.Common.Effect.{Result, ok, resume, ◌>>=◌, ◌>>◌}
use valaf.Migrate.{
  File, Db, listed, contains, ask, applied_versions, pending, insert_version, commit, apply,
  find_file, read_file, apply_all, run,
}
use valaf.Migrate.Deployed.{run_file, and_then, replay}
use valaf.Migrate.Fresh.{IsFresh, AreDistinct, pending-IsFresh, pending-append}

module _ {S : Type 0} where
  -- a database whose server answers
  abbrev pub healthy : Option (List String) → S → Db S
  healthy vo s = record { versions = vo; schema = s; faults = [] }

  and_then-eq-some :
      (o : Option S) (f : S → Option S) (s' : S)
      → and_then o f ≡ some s'
      → (s : S) × (o ≡ some s) × (f s ≡ some s')
  and_then-eq-some none f s' h = cc
  and_then-eq-some (some s) f s' h = (s, refl, h)

module _ {S : Type 0} (execute : String → S → Option S) (files : List File) where
  apply_step :
      (ws : List String) (s s' : S) (v body : String)
      → contains ws v ≡ false
      → execute body s ≡ some s'
      → apply execute v body (healthy (some ws) s) ≡ (ok tt, healthy (some (ws ++ v ∷ [])) s')
  unfolding apply ask commit insert_version
  apply_step ws s s' v body n e = rw e (rw n refl)

  apply_all-healthy :
      (ws vs : List String) (s s' : S)
      → IsFresh ws vs
      → replay execute files vs s ≡ some s'
      → apply_all execute files vs (healthy (some ws) s) ≡ (ok tt, healthy (some (ws ++ vs)) s')
  unfolding apply_all
  apply_all-healthy ws [] s s' n h =
      let e : s ≡ s' = cc in
      ap (λ x. (ok tt, healthy (some ws) x)) e
      ∙ ap (λ l. (ok tt, healthy (some l) s')) (sym (append-nil ws))
  apply_all-healthy ws (v ∷ rest) s s' n h = elim (Option-cases (find_file files v)) [
    | inl e ↦ cc (rw e at h)
    | inr (f, e) ↦
        let (s1, run_f, rest_h) =
          and_then-eq-some (execute f.body s) (replay execute files rest) s' (
            sym (ap (λ o. and_then (run_file execute files o s) (replay execute files rest)) e)
            ∙ h) in
        ap
          (λ o.
            (read_file {S = S} o >>= λ body. apply execute v body >> apply_all execute files rest)
              (healthy (some ws) s))
          e
        ∙ unfold read_file in
          (ap (λ (r : Result Unit × Db S). resume r (λ _. apply_all execute files rest))
              (apply_step ws s s1 v f.body n.0 run_f)
            ∙ apply_all-healthy (ws ++ v ∷ []) rest s1 s' n.1 rest_h
            ∙ ap (λ l. (ok tt, healthy (some l) s')) (append_assoc ws (v ∷ []) rest))
  ]

  -- On a server that answers, if the SQL of the pending files runs through in lexical order, a run of
  -- the migrations ends with the schema that they make, with every version on record, and a second
  -- run succeeds and changes nothing.
  pub run_twice :
      (vo : Option (List String)) (s s' : S)
      → AreDistinct (map (λ f. f.name) files)
      → replay execute files (pending files (listed vo)) s ≡ some s'
      → (run execute files (healthy vo s)
          ≡ (ok tt, healthy (some (listed vo ++ pending files (listed vo))) s'))
        × (run execute files (healthy (some (listed vo ++ pending files (listed vo))) s')
            ≡ (ok tt, healthy (some (listed vo ++ pending files (listed vo))) s'))
  unfolding run ask applied_versions
  run_twice vo s s' distinct h = (
    apply_all-healthy (listed vo) (pending files (listed vo)) s s'
        (pending-IsFresh files (listed vo) distinct) h,
    ap
          (λ vs.
            apply_all execute files vs (healthy (some (listed vo ++ pending files (listed vo))) s'))
          (pending-append files (listed vo))
        ∙ unfold apply_all in refl,
  )
