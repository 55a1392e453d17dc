-- ===== src/Blob.antt =====
-- internal/blob/blob.go and internal/blob/local.go: binary evidence in files under a root. A name is a
-- text of code points and a path the list of its names, so that the separator is what lies between
-- two of them; the root is clean, as filepath.Join makes it.
pub mod Disk
pub mod Confined
pub mod Stored
use valaf.Common.{
  ℕ, zero, suc, Bool, true, false, ◌&&◌, ◌||◌, not, Option, none, some, List, [], ◌∷◌, ◌++◌, String,
  eqb, ◌==◌, if◌then◌else◌,
}
use mathlib.Core.List.{reverse}
use valaf.Common.Text.{split, Text, codes, same, contains_text}
use valaf.Common.Effect.{Error, Result, ok, err, message, Eff, pure, ◌>>=◌, ◌>>◌}
use valaf.Blob.Disk.{Path_, FileSystem, Content, mkdir_all, write_file, rename, open_path, remove}

pub record Config : Type 0 where
  pub s3_endpoint : String
  pub s3_bucket : String
  pub s3_access_key : String
  pub s3_secret_key : String
  pub s3_use_ssl : Bool
  pub local_dir : String

-- the backend that `New` chooses, and the directory of the local one
pub data Backend : Type 0 where
  s3 : Backend
  local : String → Backend

unfoldable pub choose_backend : Config → Backend
choose_backend cfg =
    if not (cfg.s3_endpoint == "") && not (cfg.s3_bucket == "")
    then s3
    else local (if cfg.local_dir == "" then "/var/lib/valaf" else cfg.local_dir)

abbrev pub pop : List Text → List Text
pop [] = []
pop (m ∷ below) = below

-- filepath.Clean of a rooted path: `stack` is what is kept, the last name first
unfoldable pub clean : List Text → List Text → List Text
unfolding same
clean stack [] = reverse stack
clean stack (n ∷ rest) =
    let dropped = clean stack rest in
    let up = clean (elim stack [ [] ↦ [] | ◌∷◌ m below ↦ below ]) rest in
    let kept = clean (n ∷ stack) rest in
    if same n [] || same n (codes ".") then dropped else if same n (codes "..") then up else kept

-- `strings.HasPrefix(full, s.root+"/")`
unfoldable pub is_below : Path_ → Path_ → Bool
unfolding same
is_below [] [] = false
is_below [] (n ∷ full) = true
is_below (m ∷ root) [] = false
is_below (m ∷ root) (n ∷ full) = same m n && is_below root full

abbrev pub bad_key : Error
bad_key = message "invalid blob key"

unfoldable pub path : Path_ → Text → Result Path_
unfolding split clean is_below contains_text same
path root key =
    if same key [] || contains_text key (codes "..")
    then err bad_key
    else if is_below root (root ++ clean [] (split b'/' [] (b'/' ∷ key)))
    then ok (root ++ clean [] (split b'/' [] (b'/' ∷ key)))
    else err bad_key

-- filepath.Dir
unfoldable pub parent : Path_ → Path_
parent [] = []
parent (n ∷ []) = []
parent (n ∷ m ∷ rest) = n ∷ parent (m ∷ rest)

-- `full + ".tmp"`
unfoldable pub tmp_of : Path_ → Path_
tmp_of [] = []
tmp_of (n ∷ []) = (n ++ codes ".tmp") ∷ []
tmp_of (n ∷ m ∷ rest) = n ∷ tmp_of (m ∷ rest)

module _ {D : Type 0} (root : Path_) where
  unfoldable pub put_at : Result Path_ → D → Eff (FileSystem D) Unit
  unfolding parent tmp_of
  put_at (err e) x = λ d. (err e, d)
  put_at (ok full) x =
      mkdir_all (parent full) >> (write_file (tmp_of full) x >> rename (tmp_of full) full)

  unfoldable pub put : Text → D → Eff (FileSystem D) Unit
  unfolding put_at path
  put key x = put_at (path root key) x

  unfoldable pub open_at : Result Path_ → Eff (FileSystem D) (Content D)
  open_at (err e) = λ d. (err e, d)
  open_at (ok full) = open_path full

  unfoldable pub open_key : Text → Eff (FileSystem D) (Content D)
  unfolding open_at path
  open_key key = open_at (path root key)

  unfoldable pub delete_at : Result Path_ → Eff (FileSystem D) Unit
  delete_at (err e) = λ d. (err e, d)
  delete_at (ok full) = remove full

  unfoldable pub delete : Text → Eff (FileSystem D) Unit
  unfolding delete_at path
  delete key = delete_at (path root key)

-- the interface `Store`; a key is a text of the program, and its content type is not kept by the local
-- store
pub record BlobStore (S D : Type 0) : Type 0 where
  pub backend : String
  pub put_blob : String → String → D → Eff S Unit
  pub open_blob : String → Eff S (Content D)
  pub delete_blob : String → Eff S Unit

unfoldable pub local_store : {D : Type 0} → Path_ → BlobStore (FileSystem D) D
unfolding put open_key delete
local_store root = record {
  backend = "local";
  put_blob = λ key content_type x. put root (codes key) x;
  open_blob = λ key. open_key root (codes key);
  delete_blob = λ key. delete root (codes key);
}
