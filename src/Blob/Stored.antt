-- ===== src/Blob/Stored.antt =====
-- A blob is written whole or not at all.
use valaf.Common.{
  ℕ, true, false, ◌||◌, ◌≡◌, refl, ap, ◌∙◌, some, List, [], ◌∷◌, ◌++◌, Bool-cases, inl, inr, eqb,
  eqb_iff, arith,
}
use mathlib.Core.Path.{subst}
use valaf.Common.Text.{Text, codes, same}
use valaf.Common.Effect.{Result, ok, err, ◌>>◌}
use valaf.Blob.Disk.{
  Path_, FileSystem, same_path, lookup, erase, is_dir, fails_next, spend, blocked, with_dirs,
  mkdir_all, write_file, move, rename, open_path, bytes,
}
use valaf.Blob.{parent, tmp_of, path, put_at, put, open_at, open_key}

same→eq : (s t : Text) → same s t ≡ true → s ≡ t
unfolding same
same→eq [] [] h = refl
same→eq [] (b ∷ t) h = cc
same→eq (a ∷ s) [] h = cc
same→eq (a ∷ s) (b ∷ t) h =
    let e : eqb a b ≡ true = ground arith in
    let k : same s t ≡ true = ground arith in
    ap (λ c. c ∷ s) ((eqb_iff a b).0 e) ∙ ap (λ u. b ∷ u) (same→eq s t k)

same_refl : (s : Text) → same s s ≡ true
unfolding same
same_refl [] = refl
same_refl (a ∷ s) = ground (arith, same_refl s)

same_path→eq : (p q : Path_) → same_path p q ≡ true → p ≡ q
unfolding same_path
same_path→eq [] [] h = refl
same_path→eq [] (n ∷ q) h = cc
same_path→eq (m ∷ p) [] h = cc
same_path→eq (m ∷ p) (n ∷ q) h =
    let e : same m n ≡ true = ground arith in
    let k : same_path p q ≡ true = ground arith in
    ap (λ c. c ∷ p) (same→eq m n e) ∙ ap (λ u. n ∷ u) (same_path→eq p q k)

same_path_refl : (p : Path_) → same_path p p ≡ true
unfolding same_path
same_path_refl [] = refl
same_path_refl (m ∷ p) = ground (arith, same_refl m, same_path_refl p)

-- the temporary file is another one
same-append : (n : Text) (c : ℕ) (t : Text) → same (n ++ c ∷ t) n ≡ false
unfolding same
same-append [] c t = refl
same-append (a ∷ n) c t = ground (arith, same-append n c t)

same_path-tmp_of : (n : Text) (p : Path_) → same_path (tmp_of (n ∷ p)) (n ∷ p) ≡ false
unfolding same_path tmp_of
same_path-tmp_of n [] = ground (arith, same-append n b'.' (codes "tmp"))
same_path-tmp_of n (m ∷ p) = ground (arith, same_path-tmp_of m p)

module _ {D : Type 0} where
  lookup-erase :
      (fs : List (Path_ × D)) (p q : Path_)
      → same_path p q ≡ false
      → lookup (erase fs p) q ≡ lookup fs q
  unfolding lookup erase
  lookup-erase [] p q n = refl
  lookup-erase ((r, x) ∷ rest) p q n = elim (Bool-cases (same_path r p)) [
    | inl e ↦
        let k : same_path r q ≡ false = ap (λ s. same_path s q) (same_path→eq r p e) ∙ n in
        rw e (rw k (lookup-erase rest p q n))
    | inr e ↦ rw e (elim (Bool-cases (same_path r q)) [
      | inl f ↦ rw f refl
      | inr f ↦ rw f (lookup-erase rest p q n)
    ])
  ]

  -- what becomes of the files: the blob is there, or everything is as it was, and no other file than
  -- the temporary one is touched
  abbrev pub Written : List (Path_ × D) → Path_ → D → Result Unit × FileSystem D → Type 0
  Written fs full x (ok u, d') =
      (lookup d'.files full ≡ some x)
      × ((q : Path_)
          → same_path (tmp_of full) q ≡ false
          → same_path full q ≡ false
          → lookup d'.files q ≡ lookup fs q)
  Written fs full x (err e, d') =
      (q : Path_) → same_path (tmp_of full) q ≡ false → lookup d'.files q ≡ lookup fs q

  module _ (fs : List (Path_ × D)) (full : Path_) (x : D) where
    -- the files once the temporary file is written
    abbrev staged : D → List (Path_ × D)
    staged y = (tmp_of full, y) ∷ erase fs (tmp_of full)

    lookup-staged :
        (y : D) (q : Path_) → same_path (tmp_of full) q ≡ false → lookup (staged y) q ≡ lookup fs q
    unfolding lookup
    lookup-staged y q n = rw n (lookup-erase fs (tmp_of full) q n)

    move-Written :
        (d : FileSystem D)
        → d.files ≡ staged x
        → Written fs full x (move (some x) (tmp_of full) full d)
    unfolding move lookup
    move-Written d e = (
      rw (same_path_refl full) refl,
      λ q n m. rw m (
          lookup-erase (erase d.files (tmp_of full)) full q m
          ∙ lookup-erase d.files (tmp_of full) q n
          ∙ ap (λ gs. lookup gs q) e
          ∙ lookup-staged x q n),
    )

    rename-Written :
        (d : FileSystem D) → d.files ≡ staged x → Written fs full x (rename (tmp_of full) full d)
    unfolding rename
    rename-Written d e = elim (Bool-cases (fails_next d || is_dir d full)) [
      | inl f ↦ rw f (λ q n. ap (λ gs. lookup gs q) e ∙ lookup-staged x q n)
      | inr f ↦ rw f (rw there (move-Written (spend d) e))
    ]
      where
        there : lookup d.files (tmp_of full) ≡ some x
        there =
            ap (λ gs. lookup gs (tmp_of full)) e
            ∙ unfold lookup in rw (same_path_refl (tmp_of full)) refl

    write_file-Written :
        (d : FileSystem D)
        → d.files ≡ fs
        → Written fs full x ((write_file (tmp_of full) x >> rename (tmp_of full) full) d)
    unfolding write_file
    write_file-Written d e = elim (Bool-cases (is_dir d (tmp_of full))) [
      | inl f ↦ rw f (λ q n. ap (λ gs. lookup gs q) e)
      | inr f ↦ rw f (elim (Bool-cases (fails_next d)) [
        | inl g ↦ rw g (λ q n.
            ap (λ gs. lookup ((tmp_of full, d.torn) ∷ erase gs (tmp_of full)) q) e
            ∙ lookup-staged d.torn q n)
        | inr g ↦ rw g (
            rename-Written
              (record (spend d) { files = (tmp_of full, x) ∷ erase d.files (tmp_of full) })
              (ap (λ gs. (tmp_of full, x) ∷ erase gs (tmp_of full)) e))
      ])
    ]

  -- Storing a blob succeeds and leaves its bytes at its path, or fails and leaves what was there, be it
  -- an older blob or nothing; either way every other file but the temporary one is as it was.
  pub put_at-Written :
      (root full : Path_) (x : D) (d : FileSystem D)
      → Written d.files full x (put_at root (ok full) x d)
  unfolding put_at mkdir_all
  put_at-Written root full x d =
      elim (Bool-cases (fails_next d || blocked d.files [] (parent full))) [
        | inl e ↦ rw e (λ q n. refl)
        | inr e ↦ rw e (
            write_file-Written d.files full x
              (record (spend d) { dirs = with_dirs d.dirs [] (parent full) }) refl)
      ]

  put-open_at :
      (root : Path_) (p : Result Path_) (x : D) (d d' : FileSystem D)
      → put_at root p x d ≡ (ok tt, d')
      → fails_next d' ≡ false
      → (open_at root p d').0 ≡ ok (bytes x)
  unfolding open_at open_path
  put-open_at root (err e) x d d' h n = unfold put_at in cc h
  put-open_at root (ok full) x d d' h n =
      let written : Written d.files full x (ok tt, d') =
        subst (λ r. Written d.files full x r) h (put_at-Written root full x d) in
      rw n (rw written.0 refl)

  -- A blob that was stored is read back, byte for byte, by a call of the file system that does not
  -- fail.
  pub put-open_key :
      (root : Path_) (key : Text) (x : D) (d d' : FileSystem D)
      → put root key x d ≡ (ok tt, d')
      → fails_next d' ≡ false
      → (open_key root key d').0 ≡ ok (bytes x)
  unfolding put open_key
  put-open_key root key x d d' h n = put-open_at root (path root key) x d d' h n
