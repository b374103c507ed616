-- ===== src/Peg/Reported/Leaf.antt =====
-- lib/endb_proc_macro/src/lib.rs: the errors that a pattern, a literal and a negation report.
use endb.Prelude.{
  ℕ, ◌+◌, ◌≤◌, min, String, true, false, none, some, [], ◌∷◌, ◌++◌, ◌≡◌, refl, sym, ap, ◌∙◌, subst,
  length, take, take-append, ltb, Bool-cases, Option-cases, inl, inr,
}
use endb.Prelude.Text.{Str, codes, byte_len, slice_from}
use endb.Prelude.Slices.{At}
use endb.Cst.Event.{
  Event, ParseState, ParseErrorDescriptor, ParseResult, ok, err, expected_literal, expected_pattern,
  unexpected,
}
use endb.Peg.Leaf.{
  Crates, push_error, push_pattern, push_literal, skip_whitespace, run_pattern, run_literal,
  literal_hit, to_u32,
}
use endb.Peg.Machine.{end_neg, truncate_errors, truncate_events}
use endb.Peg.Grows.{Grows}
use endb.Peg.Ensures.{Ensures, holds, Ensures-unwrap, Returns, Returns-any, Returns-bind, value}
use endb.Peg.Reported.Scan.{Scanned, Scanned-error, rules_around}

module _ (input : Str) where
  -- a state that tracks errors, inside `c` rules at least
  abbrev pub Kept : ℕ → ParseState → Type 0
  Kept c st = (st.track_errors ≡ true) × Scanned input c st.errors

  abbrev pub Keeps : ℕ → ParseResult → ParseState → Type 0
  Keeps c r st = Kept c st

  pub push_error-Scanned :
      {c : ℕ} (e : Event) (st : ParseState)
      → st.track_errors ≡ true
      → Scanned input c (st.errors ++ e ∷ [])
      → Kept c (push_error e st)
  push_error-Scanned e st t k = simp t (refl, k)

  push_error-Kept :
      {c : ℕ} (a b : ℕ) (d : ParseErrorDescriptor) (st : ParseState)
      → rules_around d ≤ c
      → At input a
      → Kept c st
      → Kept c (push_error (Event.error a b d) st)
  push_error-Kept a b d st le at (t, k) =
      push_error-Scanned (Event.error a b d) st t (Scanned-error input a b d le at k)

  push_pattern-Kept :
      {c : ℕ} (pos a b new_pos : ℕ) (st : ParseState)
      → Kept c st
      → Returns (Kept c) (push_pattern pos a b new_pos st)
  unfolding push_pattern
  push_pattern-Kept pos a b new_pos st k = elim (Bool-cases (ltb a b)) [
    | inr e ↦ rw e (value k)
    | inl e ↦ rw e (Returns-bind (Returns-any (to_u32 new_pos)) λ stop _. value k)
  ]

  push_literal-Kept :
      {c : ℕ} (l : String) (pos stop : ℕ) (st : ParseState)
      → Kept c st
      → Returns (Kept c) (push_literal l pos stop st)
  unfolding push_literal
  push_literal-Kept l pos stop st k = elim (Bool-cases (ltb pos stop)) [
    | inr e ↦ rw e (value k)
    | inl e ↦ rw e (
        Returns-bind (Returns-any (to_u32 pos))
          λ start _. Returns-bind (Returns-any (to_u32 stop)) λ stop' _. value k)
  ]

  truncated-Kept :
      {c : ℕ} (n : ℕ) (st st' : ParseState)
      → Kept c st
      → Grows st st'
      → Kept c (truncate_errors (length st.errors) (truncate_events n st'))
  truncated-Kept {c} n st st' (t, k) g =
      let tracked : st'.track_errors ≡ true = g.tracking ∙ t in
      let back : take (length st.errors) st'.errors ≡ st.errors =
        ap (take (length st.errors)) g.errors_eq ∙ take-append st.errors g.new_errors in
      simp tracked (refl, subst (Scanned input c) (sym back) k)

  pub end_neg-Kept :
      {c : ℕ} (pos : ℕ) (r : ParseResult) (st st' : ParseState)
      → 1 ≤ c
      → At input pos
      → Kept c st
      → Grows st st'
      → Ensures (Keeps c) (end_neg (length st.events) (length st.errors) pos r st')
  unfolding end_neg
  end_neg-Kept pos (err e) st st' le at k g = holds (truncated-Kept (length st.events) st st' k g)
  end_neg-Kept pos (ok new_pos) st st' le at k g = holds (
      push_error-Kept pos new_pos unexpected _ le at (truncated-Kept (length st.events) st st' k g))

  module _ (lib : Crates) where
    pub run_pattern-Kept :
        {c : ℕ} (p : String) (pos : ℕ) (st : ParseState) {s : Str}
        → slice_from input pos ≡ some s
        → (lib.find p s ≡ none → 2 ≤ c)
        → Kept c st
        → Ensures (Keeps c) (run_pattern lib input p pos st)
    unfolding run_pattern
    run_pattern-Kept p pos st {s} e deep k = elim (Option-cases (lib.find p s)) [
      | inl n ↦
          rw (e, n) (holds (push_error-Kept pos pos (expected_pattern p) st (deep n) (s, e) k))
      | inr ((x, y), f) ↦
          rw (e, f)
            (Ensures-unwrap _ (push_pattern-Kept pos x y (pos + y) st k) λ st' k'.
              Ensures-unwrap _ (Returns-any (skip_whitespace lib input (pos + y)))
                λ next _. holds k')
    ]

    pub run_literal-Kept :
        {c : ℕ} (l : String) (pos : ℕ) (st : ParseState)
        → 1 ≤ c
        → At input pos
        → Kept c st
        → Ensures (Keeps c) (run_literal lib input l pos st)
    unfolding run_literal
    run_literal-Kept l pos st le at k =
        let stop = min (pos + byte_len (codes l)) (byte_len input) in
        Ensures-unwrap _ (Returns-any (literal_hit lib input l pos stop)) (elim [
          | true ↦ λ _. Ensures-unwrap _ (push_literal-Kept l pos stop st k) λ st' k'.
              Ensures-unwrap _ (Returns-any (skip_whitespace lib input stop)) λ next _. holds k'
          | false ↦ λ _. holds (push_error-Kept pos pos (expected_literal l) st le at k)
        ])
