-- ===== src/Adapters/Ai/Extract.antt =====
-- The answer is found between stray text, as the fences of Markdown.
use valaf.Common.{
  All, ℕ, suc, ◌+◌, ◌-◌, ◌≡◌, refl, sym, ap, ◌∙◌, false, none, some, List, [], ◌∷◌, ◌++◌, length,
  length-append, eqb, eqb_refl, ltb, arith,
}
use mathlib.Core.List.{append_assoc}
use valaf.Common.Text.{Text}
use valaf.Store.Retrieval.{take}
use valaf.Adapters.Ai.{index_byte, last_index_byte, drop, between, extract_json}

abbrev pub Lacks : ℕ → Text → Type 0
Lacks c t = All (λ d. eqb d c ≡ false) t

index_byte-append :
    (c i : ℕ) (pre t : Text) → Lacks c pre → index_byte c i (pre ++ c ∷ t) ≡ some (i + length pre)
unfolding index_byte
index_byte-append c i [] t a = rw (eqb_refl c) (ap some (omega arith))
index_byte-append c i (d ∷ pre) t a =
    rw a.0 (index_byte-append c (suc i) pre t a.1 ∙ ap some (omega arith))

last_index_byte-none : (c i : ℕ) (t : Text) → Lacks c t → last_index_byte c i t ≡ none
unfolding last_index_byte
last_index_byte-none c i [] a = refl
last_index_byte-none c i (d ∷ t) a = rw (last_index_byte-none c (suc i) t a.1) (rw a.0 refl)

last_index_byte-append :
    (c i : ℕ) (pre post : Text)
    → Lacks c post
    → last_index_byte c i (pre ++ c ∷ post) ≡ some (i + length pre)
unfolding last_index_byte
last_index_byte-append c i [] post a =
    rw (last_index_byte-none c (suc i) post a) (rw (eqb_refl c) (ap some (omega arith)))
last_index_byte-append c i (d ∷ pre) post a =
    rw (last_index_byte-append c (suc i) pre post a) (ap some (omega arith))

module _ {A : Type 0} where
  drop-append : (xs ys : List A) → drop (length xs) (xs ++ ys) ≡ ys
  drop-append [] ys = refl
  drop-append (x ∷ xs) ys = drop-append xs ys

  take-append : (xs ys : List A) → take (length xs) (xs ++ ys) ≡ xs
  take-append [] ys = refl
  take-append (x ∷ xs) ys = ap (λ zs. x ∷ zs) (take-append xs ys)

module _ (pre body post : Text) where
  abbrev answer : Text
  answer = pre ++ b'{' ∷ body ++ b'}' ∷ post

  abbrev object : Text
  object = b'{' ∷ body ++ b'}' ∷ []

  drop-answer : drop (length pre) answer ≡ object ++ post
  drop-answer =
      ap (drop (length pre)) (append_assoc pre (b'{' ∷ body) (b'}' ∷ post))
      ∙ drop-append pre (b'{' ∷ body ++ b'}' ∷ post)
      ∙ sym (append_assoc (b'{' ∷ body) (b'}' ∷ []) post)

  count-object : suc (length (pre ++ b'{' ∷ body)) - length pre ≡ length object
  count-object =
      omega (arith, length-append pre (b'{' ∷ body), length-append (b'{' ∷ body) (b'}' ∷ []))

  between-answer : between (some (length pre)) (some (length (pre ++ b'{' ∷ body))) answer ≡ object
  unfolding between
  between-answer =
      let long : ltb (length (pre ++ b'{' ∷ body)) (length pre) ≡ false =
        ground (arith, length-append pre (b'{' ∷ body)) in
      rw long (
        ap (λ n. take n (drop (length pre) answer)) count-object
        ∙ ap (take (length object)) drop-answer
        ∙ take-append object post)

-- The object of an answer is found whatever stands around it, as long as no opening brace comes before
-- it and no closing brace after it.
pub extract_json_lem :
    (pre body post : Text)
    → Lacks b'{' pre
    → Lacks b'}' post
    → extract_json (pre ++ b'{' ∷ body ++ b'}' ∷ post) ≡ b'{' ∷ body ++ b'}' ∷ []
unfolding extract_json
extract_json_lem pre body post a b =
    let first : index_byte b'{' 0 (answer pre body post) ≡ some (length pre) =
      ap (index_byte b'{' 0) (append_assoc pre (b'{' ∷ body) (b'}' ∷ post))
      ∙ index_byte-append b'{' 0 pre (body ++ b'}' ∷ post) a
      ∙ ap some (omega arith) in
    let last : last_index_byte b'}' 0 (answer pre body post) ≡ some (length (pre ++ b'{' ∷ body)) =
      last_index_byte-append b'}' 0 (pre ++ b'{' ∷ body) post b ∙ ap some (omega arith) in
    ap (λ o. between o (last_index_byte b'}' 0 (answer pre body post)) (answer pre body post)) first
    ∙ ap (λ o. between (some (length pre)) o (answer pre body post)) last
    ∙ between-answer pre body post
