-- ===== src/Cst/Report/Labels/Laws.antt =====
-- lib/endb_cst/src/lib.rs, `parse_errors_to_string`: what stands in the labels of the expected.
use endb.Prelude.{
  ℕ, zero, suc, ◌+◌, ◌≤◌, List, [], ◌∷◌, ◌++◌, ◌≡◌, refl, ap, ◌∙◌, arith, length, subst, sym,
  append_assoc, length-append,
}
use endb.Prelude.Text.{Str}
use endb.Cst.Errors.{ParseError}
use endb.Cst.Report.Sorting.Laws.{Increasing, contains, dedup-sort}
use endb.Cst.Report.Labels.{all_expected, expected, chunks, chunks_from}

abbrev pub concat : List (List Str) → List Str
concat [] = []
concat (x ∷ xs) = x ++ concat xs

-- chunks of one to five texts
abbrev pub FiveAtMost : List (List Str) → Type 0
FiveAtMost [] = Unit {0}
FiveAtMost (c ∷ cs) = (1 ≤ length c) × (length c ≤ 5) × FiveAtMost cs

concat-chunks_from : (n : ℕ) (acc xs : List Str) → concat (chunks_from n acc xs) ≡ acc ++ xs
unfolding chunks_from
concat-chunks_from n acc [] = refl
concat-chunks_from zero acc (x ∷ xs) = ap (λ r. acc ++ r) (concat-chunks_from 4 (x ∷ []) xs)
concat-chunks_from (suc n) acc (x ∷ xs) =
    concat-chunks_from n (acc ++ x ∷ []) xs ∙ append_assoc acc (x ∷ []) xs

chunks_from-FiveAtMost :
    (n : ℕ) (acc xs : List Str)
    → 1 ≤ length acc
    → length acc + n ≤ 5
    → FiveAtMost (chunks_from n acc xs)
unfolding chunks_from
chunks_from-FiveAtMost n acc [] h le = (h, omega arith, tt)
chunks_from-FiveAtMost zero acc (x ∷ xs) h le =
    (h, omega arith, chunks_from-FiveAtMost 4 (x ∷ []) xs (omega arith) (omega arith))
chunks_from-FiveAtMost (suc n) acc (x ∷ xs) h le =
    chunks_from-FiveAtMost n (acc ++ x ∷ []) xs (omega (arith, length-append acc (x ∷ [])))
      (omega (arith, length-append acc (x ∷ [])))

concat-chunks : (xs : List Str) → concat (chunks xs) ≡ xs
unfolding chunks
concat-chunks [] = refl
concat-chunks (x ∷ xs) = concat-chunks_from 4 (x ∷ []) xs

chunks-FiveAtMost : (xs : List Str) → FiveAtMost (chunks xs)
unfolding chunks
chunks-FiveAtMost [] = tt
chunks-FiveAtMost (x ∷ xs) = chunks_from-FiveAtMost 4 (x ∷ []) xs (omega arith) (omega arith)

-- The texts in the labels of the expected, over all the chunks, stand in strictly increasing order,
-- so none is there twice; they are the texts that the errors expect; a chunk has one to five.
pub chunks-expected :
    (errs : List ParseError)
    → Increasing (concat (chunks (expected errs)))
      × ((t : Str) → contains t (concat (chunks (expected errs))) ≡ contains t (all_expected errs))
      × FiveAtMost (chunks (expected errs))
unfolding expected
chunks-expected errs =
    let (increasing, same) = dedup-sort (all_expected errs) in
    let whole = concat-chunks (expected errs) in
    (
      subst Increasing (sym whole) increasing,
      (λ t. ap (contains t) whole ∙ same t),
      chunks-FiveAtMost (expected errs),
    )
