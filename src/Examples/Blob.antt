-- ===== src/Examples/Blob.antt =====
-- The local store of blobs on concrete keys.
use valaf.Common.{ℕ, Bool, ◌≡◌, ◌≢◌, refl, true, false, All, List, [], ◌∷◌, ◌++◌}
use valaf.Common.Text.{Text, codes}
use valaf.Common.Effect.{ok}
use valaf.Blob.Disk.{Path_, FileSystem, fails_next, mkdir_all, write_file, rename, bytes}
use valaf.Blob.{path, put, put_at, open_key, tmp_of}
use valaf.Blob.Confined.{IsPlain, path-confined}
use valaf.Blob.Stored.{Written, put_at-Written, put-open_key}

abbrev root : Path_
root = codes "data" ∷ codes "blobs" ∷ []

abbrev key : Text
key = codes "snapshots/./7//p.png"

abbrev full : Path_
full = codes "data" ∷ codes "blobs" ∷ codes "snapshots" ∷ codes "7" ∷ codes "p.png" ∷ []

accepted : path root key ≡ ok full
unfolding path
accepted = refl

path-confined_example : (rest : List Text) × (full ≡ root ++ rest) × (rest ≢ []) × All IsPlain rest
path-confined_example = path-confined root key full accepted

-- an empty disk whose third call fails
abbrev disk : List Bool → FileSystem ℕ
disk faults = record { files = []; dirs = []; faults = faults; torn = 0 }

abbrev failing : FileSystem ℕ
failing = disk (false ∷ false ∷ true ∷ [])

put_at-Written_example : Written [] full 5 (put_at root (ok full) 5 failing)
put_at-Written_example = put_at-Written root full 5 failing

stored : put root key 5 (disk []) ≡ (ok tt, (put root key 5 (disk [])).1)
unfolding put put_at mkdir_all write_file rename
stored = refl

calm : fails_next (put root key 5 (disk [])).1 ≡ false
unfolding put put_at mkdir_all write_file rename
calm = refl

put-open_key_example : (open_key root key (put root key 5 (disk [])).1).0 ≡ ok (bytes 5)
put-open_key_example = put-open_key root key 5 (disk []) (put root key 5 (disk [])).1 stored calm

-- the temporary file of one key is the file of another
collides : path root (codes "a.tmp") ≡ ok (tmp_of (root ++ codes "a" ∷ []))
unfolding path tmp_of
collides = refl
