-- ===== src/Password/RoundTrip.antt =====
-- A stored hash accepts the passwords that give its key, and no others.
use valaf.Common.{All, ℕ, false, ◌≡◌, refl, ap, ◌∙◌, some, [], ◌∷◌, ◌++◌, eqb, eqb_refl, length}
use mathlib.Core.List.{reverse, reverse_aux, reverse-reverse}
use valaf.Common.Text.{Text, codes, same, split}
use valaf.Common.Effect.{ok}
use valaf.Password.{
  Crypto, argon_memory, argon_time, argon_threads, key_len, key_of, hash_with, compare_key,
  check_key, verify_parts, verify_password,
}

abbrev pub Lacks : ℕ → Text → Type 0
Lacks c t = All (λ d. eqb d c ≡ false) t

split-append :
    (c : ℕ) (w xs t : Text)
    → Lacks c xs
    → split c w (xs ++ c ∷ t) ≡ reverse (reverse_aux xs w) ∷ split c [] t
unfolding split
split-append c w [] t a = rw (eqb_refl c) refl
split-append c w (x ∷ xs) t a = rw a.0 (split-append c (x ∷ w) xs t a.1)

split_last : (c : ℕ) (w xs : Text) → Lacks c xs → split c w xs ≡ reverse (reverse_aux xs w) ∷ []
unfolding split
split_last c w [] a = refl
split_last c w (x ∷ xs) a = rw a.0 (split_last c (x ∷ w) xs a.1)

two_parts :
    (xs ys : Text) → Lacks b'$' xs → Lacks b'$' ys → split b'$' [] (xs ++ b'$' ∷ ys) ≡ xs ∷ ys ∷ []
two_parts xs ys a b =
    split-append b'$' [] xs ys a
    ∙ ap (λ l. reverse (reverse xs) ∷ l) (split_last b'$' [] ys b)
    ∙ ap (λ l. l ∷ reverse (reverse ys) ∷ []) (reverse-reverse xs)
    ∙ ap (λ l. xs ∷ l ∷ []) (reverse-reverse ys)

-- what the program relies on
pub record IsSound (crypto : Crypto) : Type 0 where
  pub decode-encode : (t : Text) → crypto.decode (crypto.encode t) ≡ some t
  pub encode-Lacks : (t : Text) → Lacks b'$' (crypto.encode t)
  pub length-id_key :
      (password salt : Text) (time mem par n : ℕ)
      → length (crypto.id_key password salt time mem par n) ≡ n
  pub scans_version : crypto.scan_version (codes "v=19") ≡ some 19
  pub scans_costs : crypto.scan_costs (codes "m=65536,t=3,p=2") ≡ some (65536, 3, 2)

module _ (crypto : Crypto) (sound : IsSound crypto) where
  parts_of :
      (password salt : Text)
      → split b'$' [] (hash_with crypto password salt)
        ≡ []
          ∷ codes "argon2id"
          ∷ codes "v=19"
          ∷ codes "m=65536,t=3,p=2"
          ∷ crypto.encode salt
          ∷ crypto.encode (key_of crypto password salt)
          ∷ []
  unfolding hash_with split
  parts_of password salt =
      ap (λ l. [] ∷ codes "argon2id" ∷ codes "v=19" ∷ codes "m=65536,t=3,p=2" ∷ l)
        (two_parts (crypto.encode salt) (crypto.encode (key_of crypto password salt))
          (sound.encode-Lacks salt) (sound.encode-Lacks (key_of crypto password salt)))

  -- Verifying a password against the hash of another does not panic; it compares the two keys that
  -- Argon2id derives with the salt of the hash, and accepts where they are the same. What is asked of the
  -- libraries: base64 is read back and has no dollar sign, Argon2id gives a key of the length that is
  -- asked for, and the version and the costs are read back as they are printed.
  pub verify_password-hash_with :
      (attempt password salt : Text)
      → verify_password crypto attempt (hash_with crypto password salt)
        ≡ some (ok (same (key_of crypto password salt) (key_of crypto attempt salt)))
  unfolding verify_password verify_parts check_key compare_key
  verify_password-hash_with attempt password salt =
      ap (verify_parts crypto attempt) (parts_of password salt)
      ∙ rw sound.scans_version (
          rw sound.scans_costs (
            rw (sound.decode-encode salt) (
              rw (sound.decode-encode (key_of crypto password salt)) (
                ap
                  (λ n. some (
                    ok (
                      same (key_of crypto password salt)
                        (crypto.id_key attempt salt argon_time argon_memory argon_threads n))))
                  (sound.length-id_key password salt argon_time argon_memory argon_threads
                    key_len)))))
