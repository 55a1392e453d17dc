-- ===== src/Common/Maps.antt =====
-- Go's maps with string keys, as association lists. The program reads and writes by key; where it
-- ranges over a map, the order is the one of the list.
use Prim.Native.String.{String}
use mathlib.Core.Path.{◌≡◌, refl}
use mathlib.Core.Bool.{Bool, false}
use mathlib.Core.Option.{Option, none, some}
use mathlib.Core.List.{List, [], ◌∷◌}
use native.Mathlib.Omega.{arith}
use text.Mathlib.Text.{◌==◌}
use text.Mathlib.TextEquality.{eq_iff}
use valaf.Common.Tests.{if◌then◌else◌}

abbrev pub Map : Type 0 → Type 0
Map V = List (String × V)

module _ {V : Type 0} where
  -- `v, ok := m[k]`
  unfoldable pub find : Map V → String → Option V
  find [] k = none
  find ((j, v) ∷ m) k = if j == k then some v else find m k

  -- `m[k] = v`
  unfoldable pub put : Map V → String → V → Map V
  put [] k v = (k, v) ∷ []
  put ((j, w) ∷ m) k v = if j == k then (k, v) ∷ m else (j, w) ∷ put m k v

  pub find-put :
      (m : Map V) (k j : String) (v : V)
      → find (put m k v) j ≡ (if k == j then some v else find m j)
  unfolding find put
  find-put [] k j v = refl
  find-put ((i, w) ∷ m) k j v = ground (arith, eq_iff k j, eq_iff i k, eq_iff i j, find-put m k j v)

-- `m[k]`, with the zero value for a missing key
unfoldable pub get : Map String → String → String
unfolding find
get m k = elim (find m k) [ none ↦ "" | some v ↦ v ]

unfoldable pub is_set : Map Bool → String → Bool
unfolding find
is_set m k = elim (find m k) [ none ↦ false | some b ↦ b ]

pub is_set-put :
    (m : Map Bool) (k j : String) (b : Bool)
    → is_set (put m k b) j ≡ (if k == j then b else is_set m j)
unfolding is_set
is_set-put m k j b = ground (arith, find-put m k j b)
