-- ===== src/Blob/Disk.antt =====
-- What internal/blob/local.go asks of the file system. `faults` says which of the coming calls fail;
-- a write that fails leaves a torn file.
use valaf.Common.{
  Bool, true, false, ◌&&◌, ◌||◌, Option, none, some, List, [], ◌∷◌, ◌++◌, any, if◌then◌else◌,
}
use valaf.Common.Text.{Text, same}
use valaf.Common.Effect.{Error, Result, ok, err, message, Eff}

abbrev pub Path_ : Type 0
Path_ = List Text

unfoldable pub same_path : Path_ → Path_ → Bool
same_path [] [] = true
same_path (m ∷ p) (n ∷ q) = same m n && same_path p q
same_path _ _ = false

abbrev pub io_error : Error
io_error = message "input/output error"

unfoldable pub with_dirs : List Path_ → Path_ → Path_ → List Path_
with_dirs dirs done [] = dirs
with_dirs dirs done (n ∷ p) = with_dirs ((done ++ n ∷ []) ∷ dirs) (done ++ n ∷ []) p

-- is anything below the directory
unfoldable pub is_inside : Path_ → Path_ → Bool
unfolding same_path
is_inside [] [] = false
is_inside [] (n ∷ q) = true
is_inside (m ∷ p) [] = false
is_inside (m ∷ p) (n ∷ q) = same m n && is_inside p q

unfoldable pub drop_dir : List Path_ → Path_ → List Path_
unfolding same_path
drop_dir [] p = []
drop_dir (q ∷ rest) p = let others = drop_dir rest p in if same_path q p then others else q ∷ others

-- os.Open: a directory can be opened too
pub data Content (D : Type 0) : Type 0 where
  bytes : D → Content D
  directory : Content D

-- `D` is the type of a file's bytes
pub record FileSystem (D : Type 0) : Type 0 where
  pub files : List (Path_ × D)
  pub dirs : List Path_
  pub faults : List Bool
  pub torn : D

module _ {D : Type 0} where
  unfoldable pub lookup : List (Path_ × D) → Path_ → Option D
  unfolding same_path
  lookup [] p = none
  lookup ((q, x) ∷ rest) p = let other = lookup rest p in if same_path q p then some x else other

  unfoldable pub erase : List (Path_ × D) → Path_ → List (Path_ × D)
  unfolding same_path
  erase [] p = []
  erase ((q, x) ∷ rest) p =
      let others = erase rest p in if same_path q p then others else (q, x) ∷ others

  abbrev pub is_dir : FileSystem D → Path_ → Bool
  unfolding same_path
  is_dir d p = any (λ q. same_path q p) d.dirs

  abbrev pub fails_next : FileSystem D → Bool
  fails_next d = elim d.faults [ [] ↦ false | ◌∷◌ b rest ↦ b ]

  abbrev pub spend : FileSystem D → FileSystem D
  spend d = record d { faults = elim d.faults [ [] ↦ [] | ◌∷◌ b rest ↦ rest ] }

  unfoldable pub has_file : List (Path_ × D) → Path_ → Bool
  unfolding lookup
  has_file fs p = elim (lookup fs p) [ none ↦ false | some x ↦ true ]

  -- is a file where a directory on the way to `p`, or `p` itself, has to be
  unfoldable pub blocked : List (Path_ × D) → Path_ → Path_ → Bool
  unfolding has_file
  blocked fs done [] = false
  blocked fs done (n ∷ p) = has_file fs (done ++ n ∷ []) || blocked fs (done ++ n ∷ []) p

  -- os.MkdirAll
  unfoldable pub mkdir_all : Path_ → Eff (FileSystem D) Unit
  unfolding blocked with_dirs
  mkdir_all p d =
      if fails_next d || blocked d.files [] p
      then (err io_error, spend d)
      else (ok tt, record (spend d) { dirs = with_dirs d.dirs [] p })

  -- os.WriteFile
  unfoldable pub write_file : Path_ → D → Eff (FileSystem D) Unit
  unfolding erase
  write_file p x d =
      if is_dir d p
      then (err io_error, spend d)
      else if fails_next d
      then (err io_error, record (spend d) { files = (p, d.torn) ∷ erase d.files p })
      else (ok tt, record (spend d) { files = (p, x) ∷ erase d.files p })

  -- the outcome of a rename of what stands at `a`
  unfoldable pub move : Option D → Path_ → Path_ → Eff (FileSystem D) Unit
  unfolding erase
  move none a b d = (err io_error, d)
  move (some x) a b d = (ok tt, record d { files = (b, x) ∷ erase (erase d.files a) b })

  -- os.Rename of a file
  unfoldable pub rename : Path_ → Path_ → Eff (FileSystem D) Unit
  unfolding move lookup
  rename a b d =
      if fails_next d || is_dir d b
      then (err io_error, spend d)
      else move (lookup d.files a) a b (spend d)

  abbrev found : Option D → Bool → Result (Content D)
  found (some x) is_directory = ok (bytes x)
  found none is_directory =
      if is_directory then ok directory else err (message "file does not exist")

  unfoldable pub open_path : Path_ → Eff (FileSystem D) (Content D)
  unfolding lookup
  open_path p d =
      if fails_next d
      then (err io_error, spend d)
      else (found (lookup d.files p) (is_dir d p), spend d)

  unfoldable pub is_used : FileSystem D → Path_ → Bool
  unfolding is_inside
  is_used d p = any (λ e. is_inside p e.0) d.files || any (is_inside p) d.dirs

  -- os.Remove, which a file that does not exist does not fail here, as `Delete` passes over that error
  unfoldable pub remove : Path_ → Eff (FileSystem D) Unit
  unfolding has_file erase is_used drop_dir
  remove p d =
      if fails_next d
      then (err io_error, spend d)
      else if has_file d.files p
      then (ok tt, record (spend d) { files = erase d.files p })
      else if is_dir d p && is_used d p
      then (err io_error, spend d)
      else (ok tt, record (spend d) { dirs = drop_dir d.dirs p })
