-- ===== src/Common/Effect.antt =====
-- Go's `(T, error)` results, and calls that read and change a state. An error that is returned
-- leaves the writes made before it in the state.
use mathlib.Core.Path.{◌≡◌, refl}
use mathlib.Core.Logic.{◌⊎◌, inl, inr}
use Prim.Native.String.{String}

-- The errors that the program tells apart, and those that it only passes on.
pub data Error : Type 0 where
  database : Error  -- the connection was lost, or the server refused for its own reasons
  constraint : Error  -- a CHECK, a foreign key or an enum cast refused a row
  no_rows : Error  -- pgx.ErrNoRows
  bad_payload : Error  -- core.ErrBadPayload
  user_not_found session_not_found source_not_found : Error
  message : String → Error  -- errors.New, fmt.Errorf and the errors of other parties

pub data Result (A : Type 0) : Type 0 where
  ok : A → Result A
  err : Error → Result A

abbrev pub Eff : Type 0 → Type 0 → Type 0
Eff S A = S → Result A × S

module _ {S A : Type 0} where
  abbrev pub pure : A → Eff S A
  pure a s = (ok a, s)

  abbrev pub throw : Error → Eff S A
  throw e s = (err e, s)

  -- `x, err := m`, where the code goes on whatever `err` is
  abbrev pub attempt : Eff S A → Eff S (Result A)
  attempt m s = let (r, s') = m s in (ok r, s')

module _ {S A B : Type 0} where
  abbrev pub resume : Result A × S → (A → Eff S B) → Result B × S
  resume (ok a, s) f = f a s
  resume (err e, s) f = (err e, s)

  infixl 5 ◌>>=◌ ◌>>◌
  -- `if err != nil { return err }`
  abbrev pub ◌>>=◌ : Eff S A → (A → Eff S B) → Eff S B
  ◌>>=◌ m f s = resume (m s) f

  abbrev pub ◌>>◌ : Eff S A → Eff S B → Eff S B
  m >> k = m >>= λ _. k

  -- A chain that succeeds has a first step that succeeds.
  -- An error of a chain is one of its first part, or of the rest after the first part succeeded.
  pub >>=-eq-err :
      (m : Eff S A) (f : A → Eff S B) (s : S) {e : Error} {s'' : S}
      → (m >>= f) s ≡ (err e, s'')
      → (m s ≡ (err e, s'')) ⊎ ((a : A) × (s' : S) × (m s ≡ (ok a, s')) × (f a s' ≡ (err e, s'')))
  >>=-eq-err m f s {e} {s''} h = go (m s) refl h
    where
      go :
          (r : Result A × S)
          → m s ≡ r
          → resume r f ≡ (err e, s'')
          → (m s ≡ (err e, s''))
            ⊎ ((a : A) × (s' : S) × (m s ≡ (ok a, s')) × (f a s' ≡ (err e, s'')))
      go (ok a, s') d k = inr (a, s', d, k)
      go (err x, s') d k = inl cc

  pub >>=-eq-ok :
      (m : Eff S A) (f : A → Eff S B) (s : S) {b : B} {s'' : S}
      → (m >>= f) s ≡ (ok b, s'')
      → (a : A) × (s' : S) × (m s ≡ (ok a, s')) × (f a s' ≡ (ok b, s''))
  >>=-eq-ok m f s {b} {s''} h = go (m s) refl h
    where
      go :
          (r : Result A × S)
          → m s ≡ r
          → resume r f ≡ (ok b, s'')
          → (a : A) × (s' : S) × (m s ≡ (ok a, s')) × (f a s' ≡ (ok b, s''))
      go (ok a, s') e k = (a, s', e, k)
      go (err x, s') e k = cc
