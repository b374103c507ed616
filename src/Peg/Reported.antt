-- ===== src/Peg/Reported.antt =====
-- lib/endb_proc_macro/src/lib.rs: where the generated functions report errors, as
-- lib/endb_cst/src/lib.rs, `events_to_errors`, reads them.
mod Scan
mod Leaf
mod Rules
pub use Scan.{Scanned, Good, AllAt}
pub use Leaf.{Kept, Keeps}
use text.Mathlib.Text.{◌==◌ as str_eq}
use text.Mathlib.TextEquality.{eq_iff}
use endb.Prelude.{
  ℕ, zero, suc, ◌+◌, ◌≤◌, String, Bool, true, false, ◌&&◌, ◌||◌, Option, none, some, ◌≡◌, ◌≢◌, refl,
  ap, ◌∙◌, subst, arith, length, leb, ltb, last?, Bool-cases, inl, inr, and-true, ◌%◌,
}
use endb.Prelude.Text.{Str, slice_from}
use endb.Cst.Event.{Event, close_node, open_node, ParseState, ParseErr, ParseResult, ok, err, fail}
use endb.Peg.Syntax.{
  PegParser, PegParsers, end, ◌▹◌, seq, ord, pattern, literal, non_terminal, neg, look, cut, star,
  plus, opt, Rule, Grammar, find_rule,
}
use endb.Peg.Outcome.{Outcome, done, undefined, overflow}
use endb.Peg.Leaf.{Crates, to_u32, push_event, push_error, u32_mod, ◌>>=◌}
use endb.Peg.Machine.{
  run, run_seq, run_ord, run_star, run_rule, open_rule, close_rule, close_event, hide_src,
  hide_open, closes, truncate_events,
}
use endb.Peg.Grows.{run-Ensures}
use endb.Peg.Ensures.{
  Ensures, holds, faulted, Ensures-follow, Ensures-both, Ensures-done, Ensures-unwrap,
  Ensures-or_fault, Returns, Returns-any, Returns-bind, value, panics,
}
use endb.Peg.Progress.{RegexLaws}
use endb.Peg.WellFormed.{Analysis}
use endb.Peg.Meaning.Sound.{run-Answers}
use Rules.{open_rule-Kept, close_rule-Kept}
use Leaf.{end_neg-Kept, run_pattern-Kept, run_literal-Kept}

-- Inside `c` rules a parser reports a literal from one on and a pattern from two on; `\A` does not
-- fail, and what a negation tries is taken back.
abbrev mutual
  pub placed : ℕ → PegParser → Bool
  placed c (pattern p) = leb 2 c || str_eq p "\\A"
  placed c (literal l) = leb 1 c
  placed c (non_terminal id) = leb 1 c
  placed c (seq ps) = all_placed c ps
  placed c (ord ps) = all_placed c ps
  placed c (neg p) = leb 1 c
  placed c (look p) = leb 1 c
  placed c (cut p) = placed c p
  placed c (star p) = placed c p
  placed c (plus p) = placed c p
  placed c (opt p) = leb 1 c && placed c p

  all_placed : ℕ → PegParsers → Bool
  all_placed c end = true
  all_placed c (p ▹ ps) = placed c p && all_placed c ps

module _ (c : ℕ) (two : 2 ≤ c) where
  mutual
    placed_two : (p : PegParser) → placed c p ≡ true
    placed_two (pattern p) = ground (arith, two)
    placed_two (literal l) = ground (arith, two)
    placed_two (non_terminal id) = ground (arith, two)
    placed_two (seq ps) = all_placed_two ps
    placed_two (ord ps) = all_placed_two ps
    placed_two (neg p) = ground (arith, two)
    placed_two (look p) = ground (arith, two)
    placed_two (cut p) = placed_two p
    placed_two (star p) = placed_two p
    placed_two (plus p) = placed_two p
    placed_two (opt p) = ground (arith, two, placed_two p)

    all_placed_two : (ps : PegParsers) → all_placed c ps ≡ true
    all_placed_two end = refl
    all_placed_two (p ▹ ps) = ground (arith, placed_two p, all_placed_two ps)

module _ (lib : Crates) (g : Grammar) (input : Str) (a : Analysis) (laws : RegexLaws lib a)
    (anchored : (h : Str) → lib.find "\\A" h ≢ none) where
  deep_enough :
      (c : ℕ) (p : String) {s : Str} → placed c (pattern p) ≡ true → lib.find p s ≡ none → 2 ≤ c
  deep_enough c p {s} h n = elim (Bool-cases (str_eq p "\\A")) [
    | inl e ↦ absurd (anchored s (subst (λ q. lib.find q s ≡ none) ((eq_iff p "\\A").0 e) n))
    | inr e ↦ ground (arith, h, e)
  ]

  mutual
    unfolding run

    run-Kept :
        (f c : ℕ) (p : PegParser) (pos : ℕ) (st : ParseState) {s : Str}
        → placed c p ≡ true
        → slice_from input pos ≡ some s
        → Kept input c st
        → Ensures (Keeps input c) (run lib g input f p pos st)
    run-Kept zero c p pos st h e k = faulted
    run-Kept (suc f) c (pattern p) pos st h e k =
        run_pattern-Kept input lib p pos st e (λ n. deep_enough c p h n) k
    run-Kept (suc f) c (literal l) pos st {s} h e k =
        run_literal-Kept input lib l pos st (ground (arith, h)) (s, e) k
    run-Kept (suc f) c (seq ps) pos st h e k = run_seq-Kept f c (length st.events) ps pos st h e k
    run-Kept (suc f) c (ord ps) pos st h e k = run_ord-Kept f c (length st.events) ps pos st h e k
    run-Kept (suc f) c (star p) pos st h e k = run_star-Kept f c p pos st h e k
    run-Kept (suc f) c (neg p) pos st {s} h e k =
        Ensures-follow (run-Ensures lib g input f p pos st)
          λ r st' grows. end_neg-Kept input pos r st st' (ground (arith, h)) (s, e) k grows
    run-Kept (suc f) c (cut p) pos st h e k =
        Ensures-follow (run-Kept f c p pos st h e k) λ r st' k'. holds k'
    run-Kept (suc f) c (non_terminal id) pos st h e k =
        Ensures-or_fault undefined _ (Returns-any (find_rule id g)) λ rule _.
          run_rule-Kept f c rule pos st (placed_two (suc c) (ground (arith, h)) rule.body) e k
    run-Kept (suc f) c (look p) pos st h e k = run-Kept f c (neg (neg p)) pos st h e k
    run-Kept (suc f) c (plus p) pos st h e k =
        run-Kept f c (seq (p ▹ star p ▹ end)) pos st (ground (arith, h)) e k
    run-Kept (suc f) c (opt p) pos st h e k =
        run-Kept f c (ord (p ▹ literal "" ▹ end)) pos st (ground (arith, h)) e k

    run_seq-Kept :
        (f c idx : ℕ) (ps : PegParsers) (pos : ℕ) (st : ParseState) {s : Str}
        → all_placed c ps ≡ true
        → slice_from input pos ≡ some s
        → Kept input c st
        → Ensures (Keeps input c) (run_seq lib g input f idx ps pos st)
    run_seq-Kept zero c idx ps pos st h e k = faulted
    run_seq-Kept (suc f) c idx end pos st h e k = holds k
    run_seq-Kept (suc f) c idx (p ▹ ps) pos st h e k =
        let (h₁, h₂) = and-true (placed c p) _ h in
        Ensures-follow
          (Ensures-both (run-Answers lib g input a laws f p pos st e)
            (run-Kept f c p pos st h₁ e k))
          (elim [
            | ok new_pos ↦ λ st' ((t, e', _), k'). run_seq-Kept f c idx ps new_pos st' h₂ e' k'
            | err x ↦ λ st' (_, k'). holds k'
          ])

    run_ord-Kept :
        (f c idx : ℕ) (ps : PegParsers) (pos : ℕ) (st : ParseState) {s : Str}
        → all_placed c ps ≡ true
        → slice_from input pos ≡ some s
        → Kept input c st
        → Ensures (Keeps input c) (run_ord lib g input f idx ps pos st)
    run_ord-Kept zero c idx ps pos st h e k = faulted
    run_ord-Kept (suc f) c idx end pos st h e k = holds k
    run_ord-Kept (suc f) c idx (p ▹ ps) pos st h e k =
        let (h₁, h₂) = and-true (placed c p) _ h in
        Ensures-follow (run-Kept f c p pos st h₁ e k) (elim [
          | ok new_pos ↦ λ st' k'. holds k'
          | err ParseErr.error ↦ λ st' k'. holds k'
          | err fail ↦ λ st' k'. run_ord-Kept f c idx ps pos (truncate_events idx st') h₂ e k'
        ])

    run_star-Kept :
        (f c : ℕ) (p : PegParser) (pos : ℕ) (st : ParseState) {s : Str}
        → placed c p ≡ true
        → slice_from input pos ≡ some s
        → Kept input c st
        → Ensures (Keeps input c) (run_star lib g input f p pos st)
    run_star-Kept zero c p pos st h e k = faulted
    run_star-Kept (suc f) c p pos st h e k =
        Ensures-follow
          (Ensures-both (run-Answers lib g input a laws f p pos st e) (run-Kept f c p pos st h e k))
          (elim [
            | ok new_pos ↦ λ st' ((t, e', _), k'). run_star-Kept f c p new_pos st' h e' k'
            | err ParseErr.error ↦ λ st' (_, k'). holds k'
            | err fail ↦ λ st' (_, k'). holds k'
          ])

    pub run_rule-Kept :
        (f c : ℕ) (rule : Rule) (pos : ℕ) (st : ParseState) {s : Str}
        → placed (suc c) rule.body ≡ true
        → slice_from input pos ≡ some s
        → Kept input c st
        → Ensures (Keeps input c) (run_rule lib g input f rule pos st)
    run_rule-Kept zero c rule pos st h e k = faulted
    run_rule-Kept (suc f) c rule pos st h e k =
        Ensures-or_fault overflow _ (open_rule-Kept input rule pos st k) λ (i, opened) k'.
          Ensures-follow (run-Kept f (suc c) rule.body pos opened h e k')
            λ r st' k''. close_rule-Kept input rule i r st' k''

  -- whether what a rule reports, called from outside, stands in rules
  abbrev pub placed_entry : Option Rule → Bool
  placed_entry none = true
  placed_entry (some rule) = placed 1 rule.body

  pub entry-Kept :
      (f : ℕ) (id : String) (pos : ℕ) (st : ParseState) {s : Str} {r : ParseResult}
      {st' : ParseState}
      → placed_entry (find_rule id g) ≡ true
      → slice_from input pos ≡ some s
      → Kept input 0 st
      → run lib g input f (non_terminal id) pos st ≡ done r st'
      → Kept input 0 st'
  unfolding run
  entry-Kept zero id pos st h e k q = cc
  entry-Kept (suc f) id pos st h e k q =
      Ensures-done
        (Ensures-or_fault undefined _ (Returns-any (find_rule id g)) λ rule found.
          run_rule-Kept f 0 rule pos st (subst (λ o. placed_entry o ≡ true) found h) e k)
        q
