-- ===== src/Peg/Progress.antt =====
-- lib/endb_proc_macro/src/lib.rs: when a generated parser returns. By induction on
-- the fuel, which the rest of the input, the rank of the rule and the size of the parser bound.
mod Total
mod Budget
mod Tokens
pub use Total.{RegexLaws, Ends, Advances}
pub use Budget.{allowance}
use endb.Prelude.{
  ℕ, zero, suc, ◌+◌, ◌-◌, ◌*◌, ◌≤◌, ◌<◌, Bool, true, false, not, Option, none, some, ◌≡◌, refl, inl,
  inr, arith, length, Bool-cases, Option-cases, and-true, String, ltb→lt, lt→ltb, ◌⊎◌, ◌||◌, ◌&&◌,
  ap, sym, ◌∙◌,
}
use mathlib.Core.Bool.{false≢true}
use endb.Prelude.Text.{Str, byte_len}
use endb.Prelude.Slices.{At, slice_from-le}
use endb.Cst.Event.{ParseState, ParseErr, ParseResult, ok, err, fail}
use endb.Peg.Syntax.{
  PegParser, PegParsers, end, ◌▹◌, seq, ord, pattern, literal, non_terminal, neg, look, cut, star,
  plus, opt, Rule, Grammar, find_rule,
}
use endb.Peg.Outcome.{Outcome, done, fault, overflow, undefined, follow, or_fault}
use endb.Peg.Leaf.{Crates, u32_mod}
use endb.Peg.Machine.{
  run, run_seq, run_ord, run_star, run_rule, open_rule, close_rule, end_neg, truncate_events,
}
use endb.Peg.Grows.{Grows, run-Ensures, open_rule-close_rule-returns}
use endb.Peg.WellFormed.{
  Analysis, size, size_all, consuming, some_consuming, all_consuming, left_below, seq_left_below,
  all_left_below, sound, all_sound, has_rule, well_formed, RuleLaws, find_rule-RuleLaws,
  left_below_top, seq_left_below_top,
}
use Total.{returns, overflows, Ends-follow, Ends-map, Ends-and, Ends-or_fault}
use Budget.{
  allowance_consumed, allowance_kept, allowance_lower, Advances-weaken, Advances-trans, or-true,
  has_rule-some, Ends→sum,
}
use Tokens.{run_pattern-Ends, run_literal-Ends}

module _ (lib : Crates) (g : Grammar) (a : Analysis) (input : Str) (laws : RegexLaws lib a)
    (good : well_formed a g ≡ true) (small : byte_len input < u32_mod) where
  abbrev Moves : Bool → ℕ → ParseResult → ParseState → Type 0
  Moves strict pos r st = Advances input strict pos r

  close-Ends :
      (rule : Rule) (pos : ℕ) (st : ParseState) {i : ℕ} {opened : ParseState} (strict : Bool)
      → open_rule rule pos st ≡ some (i, opened)
      → (r : ParseResult) (st' : ParseState) → Advances input strict pos r × Grows opened st'
      → Ends (Moves strict pos) (close_rule rule i r st')
  close-Ends rule pos st strict e r st' (adv, grows) =
      rw ((open_rule-close_rule-returns rule pos st e r grows).1) (returns adv)

  end_neg-Ends :
      (idx err_idx pos : ℕ)
      → At input pos
      → (r : ParseResult) (st : ParseState) → Ends (Moves false pos) (end_neg idx err_idx pos r st)
  unfolding end_neg
  end_neg-Ends idx err_idx pos at (ok new_pos) st = returns tt
  end_neg-Ends idx err_idx pos at (err e) st = returns (omega arith, at, λ h. absurd (false≢true h))

  mutual
    unfolding run size consuming left_below sound

    run-Ends :
        (f n : ℕ) (p : PegParser) (pos : ℕ) (st : ParseState)
        → sound a g p ≡ true
        → left_below a n p ≡ true
        → At input pos
        → allowance a input pos n + size p < f
        → Ends (Moves (consuming a p) pos) (run lib g input f p pos st)
    run-Ends zero n p pos st s l at h = absurd (omega arith)
    run-Ends (suc f) n (pattern p) pos st s l at h =
        run_pattern-Ends lib a laws input small p pos st at
    run-Ends (suc f) n (literal p) pos st s l at h =
        run_literal-Ends lib a laws input small p pos st at
    run-Ends (suc f) n (seq ps) pos st s l at h =
        run_seq-Ends f n (length st.events) ps pos st s l at (omega arith)
    run-Ends (suc f) n (ord ps) pos st s l at h =
        run_ord-Ends f n (length st.events) ps pos st s l at (omega arith)
    run-Ends (suc f) n (neg p) pos st s l at h =
        Ends-follow _ (run-Ends f n p pos st s l at (omega arith))
          λ r st' _. end_neg-Ends _ _ pos at r st'
    run-Ends (suc f) n (cut p) pos st s l at h =
        Ends-follow _ (run-Ends f n p pos st s l at (omega arith))
          (elim [ ok new_pos ↦ λ st' m. returns m | err e ↦ λ st' m. returns tt ])
    run-Ends (suc f) n (look p) pos st s l at h =
        run-Ends f n (neg (neg p)) pos st s l at (omega arith)
    run-Ends (suc f) n (star p) pos st s l at h =
        let (c, s') = and-true (consuming a p) (sound a g p) s in
        run_star-Ends f n p pos st c s' l at (omega arith)
    run-Ends (suc f) n (plus p) pos st s l at h =
        let (c, s') = and-true (consuming a p) (sound a g p) s in
        Ends-map (λ r _. Advances-weaken input _ _ pos r λ e. rw e)
          (run-Ends f n (seq (p ▹ star p ▹ end)) pos st (rw (s', c)) (rw (l, c)) at (omega arith))
    run-Ends (suc f) n (opt p) pos st s l at h =
        Ends-map (λ r _. Advances-weaken input _ _ pos r λ e. absurd (false≢true e))
          (run-Ends f n (ord (p ▹ literal "" ▹ end)) pos st (rw s) (rw l) at (omega arith))
    run-Ends (suc f) n (non_terminal id) pos st s l at h =
        let (exists, _) = and-true (has_rule id g) _ s in
        let (rule, e) = has_rule-some g id exists in
        rw e (run_rule-Ends f n id rule pos st e at (ltb→lt _ _ l) (omega arith))

    run_seq-Ends :
        (f n idx : ℕ) (ps : PegParsers) (pos : ℕ) (st : ParseState)
        → all_sound a g ps ≡ true
        → seq_left_below a n ps ≡ true
        → At input pos
        → allowance a input pos n + size_all ps < f
        → Ends (Moves (some_consuming a ps) pos) (run_seq lib g input f idx ps pos st)
    run_seq-Ends zero n idx ps pos st s l at h = absurd (omega arith)
    run_seq-Ends (suc f) n idx end pos st s l at h =
        returns (omega arith, at, λ e. absurd (false≢true e))
    run_seq-Ends (suc f) n idx (p ▹ ps) pos st s l at h =
        let (s₁, s₂) = and-true (sound a g p) (all_sound a g ps) s in
        let (l₁, l₂) = and-true (left_below a n p) (consuming a p || seq_left_below a n ps) l in
        Ends-follow _ (run-Ends f n p pos st s₁ l₁ at (omega arith)) (elim [
          | ok new_pos ↦ λ st' (le, at', strict).
              Ends-map (λ r _. Advances-trans input _ _ pos new_pos r le strict)
                (elim (Bool-cases (consuming a p)) [
                  | inl c ↦
                      run_seq-Ends f a.top idx ps new_pos st' s₂ (seq_left_below_top a g ps s₂) at'
                        (omega (
                          arith,
                          allowance_consumed a input pos new_pos n (strict c)
                              (slice_from-le input new_pos at'.1),
                        ))
                  | inr c ↦
                      run_seq-Ends f n idx ps new_pos st' s₂ (or-true _ _ c l₂) at'
                        (omega (arith, allowance_kept a input pos new_pos n le))
                ])
          | err e ↦ λ st' _. returns tt
        ])

    run_ord-Ends :
        (f n idx : ℕ) (ps : PegParsers) (pos : ℕ) (st : ParseState)
        → all_sound a g ps ≡ true
        → all_left_below a n ps ≡ true
        → At input pos
        → allowance a input pos n + size_all ps < f
        → Ends (Moves (all_consuming a ps) pos) (run_ord lib g input f idx ps pos st)
    run_ord-Ends zero n idx ps pos st s l at h = absurd (omega arith)
    run_ord-Ends (suc f) n idx end pos st s l at h = returns tt
    run_ord-Ends (suc f) n idx (p ▹ ps) pos st s l at h =
        let (s₁, s₂) = and-true (sound a g p) (all_sound a g ps) s in
        let (l₁, l₂) = and-true (left_below a n p) (all_left_below a n ps) l in
        Ends-follow _ (run-Ends f n p pos st s₁ l₁ at (omega arith)) (elim [
          | ok new_pos ↦ λ st' (le, at', strict).
              returns (le, at', λ e. strict (and-true (consuming a p) _ e).0)
          | err ParseErr.error ↦ λ st' _. returns tt
          | err fail ↦ λ st' _.
              Ends-map
                (λ r _. Advances-weaken input _ _ pos r λ e. (and-true (consuming a p) _ e).1)
                (run_ord-Ends f n idx ps pos (truncate_events idx st') s₂ l₂ at (omega arith))
        ])

    run_star-Ends :
        (f n : ℕ) (p : PegParser) (pos : ℕ) (st : ParseState)
        → consuming a p ≡ true
        → sound a g p ≡ true
        → left_below a n p ≡ true
        → At input pos
        → allowance a input pos n + suc (size p) < f
        → Ends (Moves false pos) (run_star lib g input f p pos st)
    run_star-Ends zero n p pos st c s l at h = absurd (omega arith)
    run_star-Ends (suc f) n p pos st c s l at h =
        Ends-follow _ (run-Ends f n p pos st s l at (omega arith)) (elim [
          | ok new_pos ↦ λ st' (le, at', strict).
              Ends-map
                (λ r _.
                  Advances-trans input false false pos new_pos r le λ e. absurd (false≢true e))
                (run_star-Ends f a.top p new_pos st' c s (left_below_top a g p s) at' (
                  omega (
                    arith,
                    allowance_consumed a input pos new_pos n (strict c)
                        (slice_from-le input new_pos at'.1),
                  )))
          | err ParseErr.error ↦ λ st' _. returns tt
          | err fail ↦ λ st' _. returns (omega arith, at, λ e. absurd (false≢true e))
        ])

    run_rule-Ends :
        (f n : ℕ) (id : String) (rule : Rule) (pos : ℕ) (st : ParseState)
        → find_rule id g ≡ some rule
        → At input pos
        → a.rank id < n
        → allowance a input pos n ≤ f
        → Ends (Moves (a.consuming_rule id) pos) (run_rule lib g input f rule pos st)
    run_rule-Ends zero n id rule pos st e at k h =
        absurd (omega (arith, allowance_lower a input pos (a.rank id) n k))
    run_rule-Ends (suc f) n id rule pos st e at k h =
        let laws = find_rule-RuleLaws a g id good e in
        Ends-or_fault (open_rule rule pos st) _ λ (i, opened) o.
          Ends-follow _
            (Ends-and
              (run-Ends f (a.rank id) rule.body pos opened laws.body_sound laws.body_left at
                (omega (arith, allowance_lower a input pos (a.rank id) n k, laws.body_size)))
              (run-Ensures lib g input f rule.body pos opened))
            λ r st' (adv, grows).
              close-Ends rule pos st (a.consuming_rule id) o r st'
                (Advances-weaken input _ _ pos r laws.body_consuming adv, grows)

  -- Every rule of a well-formed grammar returns at each boundary of an input shorter than 2^32
  -- bytes, given regular expressions that keep the stated laws and the stated fuel: it comes to a
  -- result, which if it is a success goes forward to a boundary of the input, or the number of
  -- events outgrew a `u32`. No slice and no index panics.
  pub rule_returns :
      (id : String) (pos : ℕ) (st : ParseState) (f : ℕ)
      → has_rule id g ≡ true
      → a.rank id < a.top
      → At input pos
      → allowance a input pos a.top + 1 < f
      → ((r : ParseResult) × (st' : ParseState) × (run lib g input f (non_terminal id) pos st
            ≡ done r st')
          × Advances input (a.consuming_rule id) pos r)
        ⊎ (run lib g input f (non_terminal id) pos st ≡ fault overflow)
  unfolding sound left_below size consuming
  rule_returns id pos st f exists low at h =
      Ends→sum (
        run-Ends f a.top (non_terminal id) pos st (rw exists (lt→ltb _ _ low)) (lt→ltb _ _ low) at
          h)
