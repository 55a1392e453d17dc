-- ===== src/Adapters/Alertmanager/Keys.antt =====
-- The grouping keys and fingerprints that the adapter derives, and the precedence of labels.
use valaf.Common.{String, ◌≡◌, refl, ap, ◌∙◌, List, [], ◌∷◌, map}
use Prim.Native.String.{◌++◌}
use mathlib.Core.List.{Perm}
use valaf.Common.Maps.{Map, get}
use valaf.Common.Order.{sort_texts, sort_texts-perm}
use valaf.Adapters.Alertmanager.{pairs_text, key_text, derive_key}

-- one map, its entries listed in two orders
abbrev pub IsSameMap : Map String → Map String → Type 0
IsSameMap a b = Perm (map (λ p. p.0) a) (map (λ p. p.0) b) × ((k : String) → get a k ≡ get b k)

pairs_text-eq :
    (a b : Map String) (keys : List String)
    → ((k : String) → get a k ≡ get b k)
    → pairs_text a keys ≡ pairs_text b keys
unfolding pairs_text
pairs_text-eq a b [] h = refl
pairs_text-eq a b (k ∷ rest) h =
    ap (λ v. k ++ ("=" ++ (v ++ ("," ++ pairs_text a rest)))) (h k)
    ∙ ap (λ t. k ++ ("=" ++ (get b k ++ ("," ++ t)))) (pairs_text-eq a b rest h)

-- The key that is derived from labels does not depend on the order in which Go ranges over them.
pub derive_key-IsSameMap :
    (digest : String → String) (a b : Map String)
    → IsSameMap a b
    → derive_key digest a ≡ derive_key digest b
unfolding derive_key key_text
derive_key-IsSameMap digest a b same = ap digest (
    pairs_text-eq a b (sort_texts (map (λ p. p.0) a)) same.1
    ∙ ap (pairs_text b) (sort_texts-perm (map (λ p. p.0) a) (map (λ p. p.0) b) same.0))
