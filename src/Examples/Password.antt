-- ===== src/Examples/Password.antt =====
-- Hashes of passwords with a toy cipher.
use valaf.Common.{
  ℕ, zero, suc, ◌+◌, ◌-◌, ◌≡◌, refl, ap, ◌∙◌, false, none, some, [], ◌∷◌, ◌++◌, map, length, arith,
  if◌then◌else◌,
}
use valaf.Common.Text.{Text, codes, same}
use valaf.Common.Effect.{ok}
use valaf.Password.{Crypto, key_of, hash_with, verify_password}
use valaf.Password.RoundTrip.{Lacks, IsSound, verify_password-hash_with}
use valaf.Adapters.Ai.{extract_json}
use valaf.Adapters.Ai.Extract.{extract_json_lem}

-- the password, cut or filled up
abbrev pad : Text → ℕ → Text
pad t zero = []
pad [] (suc n) = 0 ∷ pad [] n
pad (c ∷ t) (suc n) = c ∷ pad t n

abbrev toy : Crypto
toy = record {
  id_key = λ password salt time mem par n. pad password n;
  encode = λ t. map (λ c. c + 37) t;
  decode = λ t. some (map (λ c. c - 37) t);
  scan_version = λ t. if same t (codes "v=19") then some 19 else none;
  scan_costs = λ t. if same t (codes "m=65536,t=3,p=2") then some (65536, 3, 2) else none;
}

length-pad : (t : Text) (n : ℕ) → length (pad t n) ≡ n
length-pad t zero = refl
length-pad [] (suc n) = ap suc (length-pad [] n)
length-pad (c ∷ t) (suc n) = ap suc (length-pad t n)

shifted_back : (t : Text) → map (λ c. c - 37) (map (λ c. c + 37) t) ≡ t
shifted_back [] = refl
shifted_back (c ∷ t) =
    let e : c + 37 - 37 ≡ c = omega arith in
    ap (λ d. d ∷ map (λ c. c - 37) (map (λ c. c + 37) t)) e ∙ ap (λ u. c ∷ u) (shifted_back t)

shifted-Lacks : (t : Text) → Lacks b'$' (map (λ c. c + 37) t)
shifted-Lacks [] = tt
shifted-Lacks (c ∷ t) = (ground arith, shifted-Lacks t)

sound : IsSound toy
unfolding same
sound = record {
  decode-encode = λ t. ap some (shifted_back t);
  encode-Lacks = shifted-Lacks;
  length-id_key = λ password salt time mem par n. length-pad password n;
  scans_version = refl;
  scans_costs = refl;
}

verify_password-hash_with_example :
    verify_password toy (codes "guess") (hash_with toy (codes "secret") (codes "salt"))
    ≡ some (
        ok (
          same
            (key_of toy (codes "secret") (codes "salt"))
            (key_of toy (codes "guess") (codes "salt"))))
verify_password-hash_with_example =
    verify_password-hash_with toy sound (codes "guess") (codes "secret") (codes "salt")

rejected : same (key_of toy (codes "secret") []) (key_of toy (codes "guess") []) ≡ false
unfolding same
rejected = refl

-- an answer of a model between fences
extract_json_example :
    extract_json (codes "```json " ++ b'{' ∷ codes "\"gaps\": {}" ++ b'}' ∷ codes " ```")
    ≡ b'{' ∷ codes "\"gaps\": {}" ++ b'}' ∷ []
extract_json_example =
    extract_json_lem (codes "```json ") (codes "\"gaps\": {}") (codes " ```")
      (refl, (refl, (refl, (refl, (refl, (refl, (refl, (refl, tt))))))))
      (refl, (refl, (refl, (refl, tt))))
