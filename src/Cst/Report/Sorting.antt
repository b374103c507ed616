-- ===== src/Cst/Report/Sorting.antt =====
-- lib/endb_cst/src/lib.rs: the stable sorts and `dedup` that `parse_errors_to_string` calls.
pub mod Laws
use endb.Prelude.{ℕ, Bool, true, false, ◌&&◌, ◌||◌, List, [], ◌∷◌, ltb, ◌==◌, if◌then◌else◌}

-- the lexicographic order of lists of numbers, that of `str` by code points and of `Vec<usize>`
unfoldable pub lex_le : List ℕ → List ℕ → Bool
lex_le [] ys = true
lex_le (x ∷ xs) [] = false
lex_le (x ∷ xs) (y ∷ ys) = ltb x y || ((x == y) && lex_le xs ys)

module _ {ℓ} {A : Type ℓ} where
  unfoldable pub insert : (A → A → Bool) → A → List A → List A
  insert le x [] = x ∷ []
  insert le x (y ∷ ys) = let rest = insert le x ys in if le x y then x ∷ y ∷ ys else y ∷ rest

  -- a stable sort by `le`
  unfoldable pub sort : (A → A → Bool) → List A → List A
  unfolding insert
  sort le [] = []
  sort le (x ∷ xs) = insert le x (sort le xs)

  -- `Vec::dedup`: of equal neighbours the first stays
  unfoldable pub dedup_after : (A → A → Bool) → A → List A → List A
  dedup_after eq x [] = x ∷ []
  dedup_after eq x (y ∷ ys) =
      let same = dedup_after eq x ys in
      let other = x ∷ dedup_after eq y ys in if eq x y then same else other

  unfoldable pub dedup : (A → A → Bool) → List A → List A
  unfolding dedup_after
  dedup eq [] = []
  dedup eq (x ∷ xs) = dedup_after eq x xs
