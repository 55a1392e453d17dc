-- ===== src/Password.antt =====
-- internal/auth/password.go: the hashes of passwords. Argon2id, base64 and fmt.Sscanf are parameters;
-- bytes are lists of numbers.
pub mod RoundTrip
use valaf.Common.{
  ℕ, zero, suc, String, Bool, true, false, ◌||◌, not, Option, none, some, List, [], ◌∷◌, ◌++◌, eqb,
  length, if◌then◌else◌,
}
use valaf.Common.Text.{Text, codes, same, split}
use valaf.Common.Effect.{Error, Result, ok, err, message}

abbrev pub argon_memory : ℕ
argon_memory = 65536

abbrev pub argon_time : ℕ
argon_time = 3

abbrev pub argon_threads : ℕ
argon_threads = 2

abbrev pub key_len : ℕ
key_len = 32

-- argon2.Version
abbrev pub argon_version : ℕ
argon_version = 19

-- `id_key password salt time memory threads key_len`
pub record Crypto : Type 0 where
  pub id_key : Text → Text → ℕ → ℕ → ℕ → ℕ → Text
  pub encode : Text → Text
  pub decode : Text → Option Text
  pub scan_version : Text → Option ℕ  -- "v=%d"
  pub scan_costs : Text → Option (ℕ × ℕ × ℕ)  -- "m=%d,t=%d,p=%d"

abbrev pub invalid_hash : Error
invalid_hash = message "invalid password hash"

module _ (crypto : Crypto) where
  abbrev pub key_of : Text → Text → Text
  key_of password salt = crypto.id_key password salt argon_time argon_memory argon_threads key_len

  -- the PHC format, with the constants printed
  unfoldable pub hash_with : Text → Text → Text
  hash_with password salt =
      codes "$argon2id$v=19$m=65536,t=3,p=2$"
      ++ (crypto.encode salt ++ b'$' ∷ crypto.encode (key_of password salt))

  -- `salt` is what crypto/rand gives
  unfoldable pub hash_password : Text → Result Text → Result Text
  unfolding hash_with
  hash_password password (err e) = err e
  hash_password password (ok salt) = ok (hash_with password salt)

  -- The comparison in constant time is an equality. IDKey panics without a round or a thread; none is a
  -- panic here and below.
  unfoldable pub compare_key : Text → Text → ℕ × ℕ × ℕ → Text → Option (Result Bool)
  unfolding same
  compare_key password salt (mem, t, par) key =
      if eqb t 0 || eqb par 0
      then none
      else some (ok (same key (crypto.id_key password salt t mem par (length key))))

  unfoldable pub check_key :
      Text → Option ℕ → Option (ℕ × ℕ × ℕ) → Option Text → Option Text → Option (Result Bool)
  unfolding compare_key
  check_key password (some version) (some costs) (some salt) (some key) =
      if eqb version argon_version
      then compare_key password salt costs key
      else some (err invalid_hash)
  check_key password _ _ _ _ = some (err invalid_hash)

  unfoldable pub verify_parts : Text → List Text → Option (Result Bool)
  unfolding check_key same
  verify_parts password (p0 ∷ p1 ∷ p2 ∷ p3 ∷ p4 ∷ p5 ∷ []) =
      if same p1 (codes "argon2id")
      then check_key password (crypto.scan_version p2) (crypto.scan_costs p3) (crypto.decode p4)
          (crypto.decode p5)
      else some (err invalid_hash)
  verify_parts password _ = some (err invalid_hash)

  unfoldable pub verify_password : Text → Text → Option (Result Bool)
  unfolding verify_parts split
  verify_password password encoded = verify_parts password (split b'$' [] encoded)
