-- ===== src/Cst/Report/Found/Laws.antt =====
-- lib/endb_cst/src/lib.rs, `parse_errors_to_string`: the range of the error in an ASCII text.
use endb.Prelude.{
  ℕ, zero, suc, ◌+◌, ◌-◌, ◌≤◌, Bool, true, ◌&&◌, some, [], ◌∷◌, ◌≡◌, refl, arith, length, ltb,
  and-true,
}
use endb.Prelude.Text.{Str, slice_from, len_utf8}
use endb.Prelude.Slices.{slice-some, slice_from-zero}
use endb.Cst.Report.Found.{
  Unicode, count_while, starts_punctuation, same_kind, error_end, found, trim_start, trim_end,
}

abbrev pub is_ascii : Str → Bool
is_ascii [] = true
is_ascii (c ∷ s) = ltb c 128 && is_ascii s

-- every byte position of an ASCII text is a boundary
slice_from-ascii :
    (s : Str) (i : ℕ)
    → is_ascii s ≡ true
    → i ≤ length s
    → (t : Str) × (slice_from s i ≡ some t) × (i + length t ≡ length s)
unfolding slice_from len_utf8
slice_from-ascii s zero h le = (s, slice_from-zero s, omega arith)
slice_from-ascii [] (suc i) h le = absurd (omega arith)
slice_from-ascii (c ∷ s) (suc i) h le =
    let (small, rest) = and-true (ltb c 128) _ h in
    let (t, e, l) = slice_from-ascii s i rest (omega arith) in
    let m : suc i - 1 ≡ i = omega arith in (t, ground (arith, small, e, m), omega arith)

count_while_le : (test : ℕ → Bool) (s : Str) → count_while test s ≤ length s
unfolding count_while
count_while_le test [] = omega arith
count_while_le test (c ∷ s) = ground (arith, count_while_le test s)

module _ (u : Unicode) where
  -- In an ASCII text the range that starts in it is a slice.
  pub found-some :
      (src : Str) (start : ℕ)
      → is_ascii src ≡ true
      → start ≤ length src
      → (stop : ℕ) × (text : Str) × (error_end u src start ≡ some stop)
        × (found u src start stop ≡ some text)
        × (start ≤ stop)
        × (stop ≤ length src)
  unfolding error_end found
  found-some src start h le =
      let (t, e, l) = slice_from-ascii src start h le in
      let n = count_while (same_kind u (starts_punctuation src start)) t in
      let small = count_while_le (same_kind u (starts_punctuation src start)) t in
      let (t', e', _) = slice_from-ascii src (start + n) h (omega arith) in
      let (v, s) = slice-some src start (start + n) (omega arith) (t, e) (t', e') in
      (start + n, trim_end u (trim_start u v), simp e refl, simp s refl, omega arith, omega arith)
