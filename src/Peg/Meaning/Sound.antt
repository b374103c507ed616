-- ===== src/Peg/Meaning/Sound.antt =====
-- lib/endb_proc_macro/src/lib.rs: the generated functions against the meaning of the grammar.
use endb.Prelude.{
  ℕ, zero, suc, ◌+◌, min, String, true, false, Option, some, ◌≡◌, subst, sym, arith, length, inl,
  inr, Option-cases,
}
use endb.Prelude.Text.{Str, codes, byte_len, slice_from}
use endb.Prelude.Slices.{slice_from-add}
use endb.Cst.Event.{ParseState, ParseErr, ParseResult, ok, err, fail}
use endb.Peg.Syntax.{
  PegParser, PegParsers, end, ◌▹◌, seq, ord, pattern, literal, non_terminal, neg, look, cut, star,
  plus, opt, Rule, Grammar, find_rule,
}
use endb.Peg.Outcome.{done, undefined, overflow}
use endb.Peg.Leaf.{
  Crates, whitespace, to_u32, skip_whitespace, push_pattern, push_literal, run_pattern, run_literal,
}
use endb.Peg.Machine.{
  run, run_seq, run_ord, run_star, run_rule, end_neg, or_error, truncate_events, open_rule,
  close_rule, close_event,
}
use endb.Peg.Ensures.{
  Ensures, holds, faulted, Ensures-follow, Ensures-done, Ensures-unwrap, Ensures-or_fault,
  Ensures-map, Returns, Returns-any, value, panics,
}
use endb.Peg.Progress.{RegexLaws}
use endb.Peg.WellFormed.{Analysis}
use endb.Peg.Bounds.{to_u32_same}
use endb.Peg.Meaning.{
  Answer, matched, failed, Parses, skip_space, pattern_reads, pattern_fails, literal_reads,
  literal_fails, seq_end, seq_next, seq_fails, ord_end, ord_first, ord_next, ord_cut, star_next,
  star_end, star_cut, neg_fails, neg_holds, cut_reads, cut_fails, rule_body, look_twice, plus_star,
  opt_empty,
}
use endb.Peg.Meaning.Leaf.{literal_hit-Found}

module _ (lib : Crates) (g : Grammar) (input : Str) where
  -- what a result answers for the text `s`
  abbrev pub Answers : PegParser → Str → ParseResult → Type 0
  Answers p s (ok pos) = (t : Str) × (slice_from input pos ≡ some t) × Parses lib g p s (matched t)
  Answers p s (err e) = Parses lib g p s (failed e)

  moved :
      (n : ℕ) {t : Str}
      → slice_from input n ≡ some t
      → Returns (λ m. slice_from input m ≡ some t) (to_u32 n)
  moved n {t} e = elim (Option-cases (to_u32 n)) [
    | inl h ↦ rw h panics
    | inr (m, h) ↦ rw h (value (subst (λ k. slice_from input k ≡ some t) (sym (to_u32_same n h)) e))
  ]

  module _ (a : Analysis) (laws : RegexLaws lib a) where
    abbrev Skipped : Str → ℕ → Type 0
    Skipped t next = (u : Str) × (skip_space lib t ≡ some u) × (slice_from input next ≡ some u)

    skipped : {P Q : ℕ → Type 0} {m : Option ℕ} → Returns P m → ((n : ℕ) → P n → Q n) → Returns Q m
    skipped panics k = panics
    skipped (value h) k = value (k _ h)

    skip_whitespace-Skipped :
        (n : ℕ) {t : Str}
        → slice_from input n ≡ some t
        → Returns (Skipped t) (skip_whitespace lib input n)
    unfolding skip_whitespace skip_space
    skip_whitespace-Skipped n {t} e = elim (Option-cases (lib.find whitespace t)) [
      | inl f ↦ rw (e, f) (skipped (moved n e) λ m at. (t, ground (arith, f), at))
      | inr ((x, y), f) ↦
          let (u, e') = (laws.find_range whitespace t f).1 in
          rw (e, f)
            (skipped (moved (n + y) (slice_from-add input n y e e'))
              λ m at. (u, ground (arith, f, e'), at))
    ]

    run_pattern-Answers :
        (p : String) (pos : ℕ) (st : ParseState) {s : Str}
        → slice_from input pos ≡ some s
        → Ensures (λ r st'. Answers (pattern p) s r) (run_pattern lib input p pos st)
    unfolding run_pattern
    run_pattern-Answers p pos st {s} e = elim (Option-cases (lib.find p s)) [
      | inl n ↦ rw (e, n) (holds (pattern_fails n))
      | inr ((x, y), f) ↦
          let (t, e') = (laws.find_range p s f).1 in
          rw (e, f)
            (Ensures-unwrap _ (Returns-any (push_pattern pos x y (pos + y) st)) λ st' _.
              Ensures-unwrap _ (skip_whitespace-Skipped (pos + y) (slice_from-add input pos y e e'))
                λ next (u, k, at). holds (u, at, pattern_reads f e' k))
    ]

    run_literal-Answers :
        (l : String) (pos : ℕ) (st : ParseState) {s : Str}
        → slice_from input pos ≡ some s
        → Ensures (λ r st'. Answers (literal l) s r) (run_literal lib input l pos st)
    unfolding run_literal
    run_literal-Answers l pos st {s} e =
        let stop = min (pos + byte_len (codes l)) (byte_len input) in
        Ensures-unwrap _ (literal_hit-Found lib input l pos e) (elim [
          | true ↦ λ (t, w, at).
              Ensures-unwrap _ (Returns-any (push_literal l pos stop st)) λ st' _.
                Ensures-unwrap _ (skip_whitespace-Skipped stop at)
                  λ next (u, k, at'). holds (u, at', literal_reads w k)
          | false ↦ λ w. holds (literal_fails w)
        ])

    end_neg-Answers :
        (p : PegParser) (idx err_idx pos : ℕ) (r : ParseResult) (st : ParseState) {s : Str}
        → slice_from input pos ≡ some s
        → Answers p s r
        → Ensures (λ r' st'. Answers (neg p) s r') (end_neg idx err_idx pos r st)
    unfolding end_neg
    end_neg-Answers p idx err_idx pos (ok new_pos) st e (t, at, d) = holds (neg_fails d)
    end_neg-Answers p idx err_idx pos (err x) st {s} e d = holds (s, e, neg_holds d)

    cut-Answers :
        (p : PegParser) (s : Str) (r : ParseResult) → Answers p s r → Answers (cut p) s (or_error r)
    cut-Answers p s (ok pos) (t, at, d) = (t, at, cut_reads d)
    cut-Answers p s (err x) d = cut_fails d

    -- a parser that answers as another one does, from its text or from one that is left
    Answers-next :
        {p q : PegParser} {s t : Str} (r : ParseResult)
        → ((o : Answer) → Parses lib g p t o → Parses lib g q s o)
        → Answers p t r
        → Answers q s r
    Answers-next (ok pos) k (u, at, d) = (u, at, k _ d)
    Answers-next (err x) k d = k _ d

    close_rule-Answers :
        {p : PegParser} {s : Str} (rule : Rule) (i : ℕ) (r : ParseResult) (st : ParseState)
        → Answers p s r
        → Ensures (λ r' st'. Answers p s r') (close_rule rule i r st)
    unfolding close_rule
    close_rule-Answers rule i r st d =
        Ensures-unwrap _ (Returns-any (close_event rule.hide i st)) λ (x, st') _. holds d

    mutual
      unfolding run

      pub run-Answers :
          (f : ℕ) (p : PegParser) (pos : ℕ) (st : ParseState) {s : Str}
          → slice_from input pos ≡ some s
          → Ensures (λ r st'. Answers p s r) (run lib g input f p pos st)
      run-Answers zero p pos st e = faulted
      run-Answers (suc f) (pattern p) pos st e = run_pattern-Answers p pos st e
      run-Answers (suc f) (literal l) pos st e = run_literal-Answers l pos st e
      run-Answers (suc f) (seq ps) pos st e = run_seq-Answers f (length st.events) ps pos st e
      run-Answers (suc f) (ord ps) pos st e = run_ord-Answers f (length st.events) ps pos st e
      run-Answers (suc f) (star p) pos st e = run_star-Answers f p pos st e
      run-Answers (suc f) (neg p) pos st e =
          Ensures-follow (run-Answers f p pos st e)
            λ r st' d. end_neg-Answers p (length st.events) (length st.errors) pos r st' e d
      run-Answers (suc f) (cut p) pos st {s} e =
          Ensures-follow (run-Answers f p pos st e) λ r st' d. holds (cut-Answers p s r d)
      run-Answers (suc f) (non_terminal id) pos st e =
          Ensures-or_fault undefined _ (Returns-any (find_rule id g)) λ rule h.
            Ensures-map (λ r st' d. Answers-next r (λ o. rule_body h) d)
              (run_rule-Answers f rule pos st e)
      run-Answers (suc f) (look p) pos st e =
          Ensures-map (λ r st' d. Answers-next r (λ o. look_twice) d)
            (run-Answers f (neg (neg p)) pos st e)
      run-Answers (suc f) (plus p) pos st e =
          Ensures-map (λ r st' d. Answers-next r (λ o. plus_star) d)
            (run-Answers f (seq (p ▹ star p ▹ end)) pos st e)
      run-Answers (suc f) (opt p) pos st e =
          Ensures-map (λ r st' d. Answers-next r (λ o. opt_empty) d)
            (run-Answers f (ord (p ▹ literal "" ▹ end)) pos st e)

      run_seq-Answers :
          (f idx : ℕ) (ps : PegParsers) (pos : ℕ) (st : ParseState) {s : Str}
          → slice_from input pos ≡ some s
          → Ensures (λ r st'. Answers (seq ps) s r) (run_seq lib g input f idx ps pos st)
      run_seq-Answers zero idx ps pos st e = faulted
      run_seq-Answers (suc f) idx end pos st {s} e = holds (s, e, seq_end)
      run_seq-Answers (suc f) idx (p ▹ ps) pos st e =
          Ensures-follow (run-Answers f p pos st e) (elim [
            | ok new_pos ↦ λ st' (t, at, d).
                Ensures-map (λ r st'' d'. Answers-next r (λ o. seq_next d) d')
                  (run_seq-Answers f idx ps new_pos st' at)
            | err x ↦ λ st' d. holds (seq_fails d)
          ])

      run_ord-Answers :
          (f idx : ℕ) (ps : PegParsers) (pos : ℕ) (st : ParseState) {s : Str}
          → slice_from input pos ≡ some s
          → Ensures (λ r st'. Answers (ord ps) s r) (run_ord lib g input f idx ps pos st)
      run_ord-Answers zero idx ps pos st e = faulted
      run_ord-Answers (suc f) idx end pos st e = holds ord_end
      run_ord-Answers (suc f) idx (p ▹ ps) pos st e =
          Ensures-follow (run-Answers f p pos st e) (elim [
            | ok new_pos ↦ λ st' (t, at, d). holds (t, at, ord_first d)
            | err ParseErr.error ↦ λ st' d. holds (ord_cut d)
            | err fail ↦ λ st' d.
                Ensures-map (λ r st'' d'. Answers-next r (λ o. ord_next d) d')
                  (run_ord-Answers f idx ps pos (truncate_events idx st') e)
          ])

      run_star-Answers :
          (f : ℕ) (p : PegParser) (pos : ℕ) (st : ParseState) {s : Str}
          → slice_from input pos ≡ some s
          → Ensures (λ r st'. Answers (star p) s r) (run_star lib g input f p pos st)
      run_star-Answers zero p pos st e = faulted
      run_star-Answers (suc f) p pos st {s} e = Ensures-follow (run-Answers f p pos st e) (elim [
        | ok new_pos ↦ λ st' (t, at, d).
            Ensures-map (λ r st'' d'. Answers-next r (λ o. star_next d) d')
              (run_star-Answers f p new_pos st' at)
        | err ParseErr.error ↦ λ st' d. holds (star_cut d)
        | err fail ↦ λ st' d. holds (s, e, star_end d)
      ])

      run_rule-Answers :
          (f : ℕ) (rule : Rule) (pos : ℕ) (st : ParseState) {s : Str}
          → slice_from input pos ≡ some s
          → Ensures (λ r st'. Answers rule.body s r) (run_rule lib g input f rule pos st)
      run_rule-Answers zero rule pos st e = faulted
      run_rule-Answers (suc f) rule pos st e =
          Ensures-or_fault overflow _ (Returns-any (open_rule rule pos st)) λ (i, opened) _.
            Ensures-follow (run-Answers f rule.body pos opened e)
              λ r st' d. close_rule-Answers rule i r st' d

    -- What a parser returns is what the grammar means: read from a boundary, it ends where the rest
    -- of the text is what the meaning leaves of it, or it fails as the meaning does.
    pub run_means :
        (f : ℕ) (p : PegParser) (pos : ℕ) (st : ParseState) {s : Str} {r : ParseResult}
        {st' : ParseState}
        → slice_from input pos ≡ some s
        → run lib g input f p pos st ≡ done r st'
        → Answers p s r
    run_means f p pos st e h = Ensures-done (run-Answers f p pos st e) h
