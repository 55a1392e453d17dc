-- ===== src/Adapters/Prometheus/Samples.antt =====
-- The trend of a series never reads out of range, whatever the number of its points.
use Prim.Native.Nat.{◌/◌}
use native.Mathlib.Nat.{mul-le-mul_right}
use valaf.Common.{
  ℕ, zero, suc, ◌+◌, ◌-◌, ◌*◌, ◌≤◌, ◌<◌, ◌≡◌, refl, ap, some, List, [], ◌∷◌, map, length, leb,
  Bool-cases, inl, inr, arith, if◌then◌else◌,
}
use valaf.Adapters.Prometheus.Summary.{Floats, get_elem?, sample_from, downsample, trend_points}

get_elem?-lt :
    {A : Type 0} (xs : List A) (i : ℕ) → i < length xs → (x : A) × (get_elem? xs i ≡ some x)
unfolding get_elem?
get_elem?-lt [] i h = let no : ⊥ = omega (arith, h) in elim no [ ]
get_elem?-lt (x ∷ xs) zero h = (x, refl)
get_elem?-lt (x ∷ xs) (suc i) h = get_elem?-lt xs i (omega (arith, h))

-- the index of a sample
index_lt : (i len : ℕ) → i ≤ 15 → 16 < len → i * (len - 1) / 15 < len
index_lt i len h long =
    let m : i * (len - 1) ≤ 15 * (len - 1) = mul-le-mul_right (len - 1) h in omega (arith, m, long)

module _ {F : Type 0} (ops : Floats F) where
  sample_from_lem :
      (vals : List F) (i todo : ℕ)
      → trend_points < length vals
      → i + todo ≤ trend_points
      → (out : List F) × (sample_from ops vals trend_points i todo ≡ some out) × (length out ≡ todo)
  unfolding sample_from
  sample_from_lem vals i zero long h = ([], refl, refl)
  sample_from_lem vals i (suc todo) long h =
      let (x, e) =
        get_elem?-lt vals (i * (length vals - 1) / 15)
          (index_lt i (length vals) (omega (arith, h)) long) in
      let (out, k, n) = sample_from_lem vals (suc i) todo long (omega (arith, h)) in
      (ops.round2 x ∷ out, rw e (rw k refl), ap suc n)

  -- A trend of 16 samples is made without reading out of range, and has 16 samples, or one for each
  -- point of a series that has no more than 16.
  pub downsample-length :
      (vals : List F)
      → (out : List F) × (downsample ops vals trend_points ≡ some out)
        × (length out ≡ (if leb (length vals) trend_points then length vals else trend_points))
  unfolding downsample
  downsample-length vals = elim (Bool-cases (leb (length vals) trend_points)) [
    | inl e ↦ (map ops.round2 vals, rw e refl, rw e (length-map vals))
    | inr e ↦
        let (out, k, n) = sample_from_lem vals 0 trend_points (ground arith) (omega arith) in
        (out, rw e k, rw e n)
  ]
    where
      length-map : (xs : List F) → length (map ops.round2 xs) ≡ length xs
      length-map [] = refl
      length-map (x ∷ xs) = ap suc (length-map xs)
