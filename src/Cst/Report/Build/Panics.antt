-- ===== src/Cst/Report/Build/Panics.antt =====
-- lib/endb_cst/src/lib.rs, `parse_errors_to_string`: an error at a character that is not ASCII.
use endb.Prelude.{
  ℕ, suc, ◌+◌, ◌-◌, ◌≤◌, Bool, true, false, none, some, List, [], ◌∷◌, ◌≡◌, refl, ap, arith, inl,
  inr, Option-cases,
}
use endb.Prelude.Text.{Str, slice, slice_from, slice_to, len_utf8}
use endb.Cst.Errors.{ParseError}
use endb.Cst.Report.Found.{
  Unicode, error_start, error_end, found, starts_punctuation, same_kind, count_while,
}
use endb.Cst.Report.Groups.{Groups, grouped}
use endb.Cst.Report.Build.{parse_errors_to_report}

-- whether a text goes on with a letter or a digit
abbrev pub goes_on : Unicode → Str → Bool
goes_on u [] = false
goes_on u (c ∷ s) = u.is_alphanumeric c

module _ (u : Unicode) (src : Str) (start c : ℕ) (rest : Str)
    (at : slice_from src start ≡ some (c ∷ rest)) (wide : 128 ≤ c)
    (letter : u.is_alphanumeric c ≡ true) (alone : goes_on u rest ≡ false)
    (word : starts_punctuation src start ≡ false) where
  count-rest : (s : Str) → goes_on u s ≡ false → count_while (same_kind u false) s ≡ 0
  unfolding count_while same_kind
  count-rest [] h = refl
  count-rest (d ∷ s) h = simp h refl

  count-first : count_while (same_kind u false) (c ∷ rest) ≡ 1
  unfolding count_while same_kind
  count-first = simp (letter) (ap suc (count-rest rest alone))

  error_end-inside : error_end u src start ≡ some (start + 1)
  unfolding error_end
  error_end-inside = simp (at, word, count-first) refl

  slice_to-inside : slice_to (c ∷ rest) 1 ≡ none
  unfolding slice_to len_utf8
  slice_to-inside = ground (arith, wide)

  slice-inside : slice src start (start + 1) ≡ none
  unfolding slice
  slice-inside =
      let n : (start + 1) - start ≡ 1 = omega arith in simp (at, n, slice_to-inside) (ground arith)

  found-inside : found u src start (start + 1) ≡ none
  unfolding found
  found-inside = simp slice-inside refl

-- Where the first error starts at a letter or digit that is not ASCII and is a word by itself, and
-- the character of that number is no punctuation, the end of the range is inside the character and
-- the slice panics.
pub parse_errors_to_report-none :
    (u : Unicode) (iter : Groups → Groups) (filename src : Str) (errors : List ParseError) (c : ℕ)
    (rest : Str)
    → slice_from src (error_start errors) ≡ some (c ∷ rest)
    → 128 ≤ c
    → u.is_alphanumeric c ≡ true
    → goes_on u rest ≡ false
    → starts_punctuation src (error_start errors) ≡ false
    → parse_errors_to_report u iter filename src errors ≡ none
unfolding parse_errors_to_report
parse_errors_to_report-none u iter filename src errors c rest at wide letter alone word =
    let start = error_start errors in
    let stop = error_end-inside u src start c rest at wide letter alone word in
    let text = found-inside u src start c rest at wide letter alone word in
    elim (Option-cases (grouped iter errors)) [
      | inl n ↦ simp (stop, n) refl
      | inr (groups, g) ↦ simp (stop, g, text) refl
    ]
