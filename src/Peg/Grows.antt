-- ===== src/Peg/Grows.antt =====
-- lib/endb_proc_macro/src/lib.rs: what any generated parser does to the parse state, by induction
-- on the fuel.
mod Steps
mod Rules
use endb.Prelude.{
  ℕ, zero, suc, ◌+◌, Bool, true, false, Option, none, some, List, [], ◌∷◌, ◌++◌, ◌≡◌, refl, arith,
  length, Option-cases, inl, inr,
}
use endb.Prelude.Text.{Str}
use endb.Cst.Event.{ParseState, ParseErr, ParseResult, ok, err, fail}
use endb.Peg.Syntax.{
  PegParser, PegParsers, end, ◌▹◌, seq, ord, pattern, literal, non_terminal, neg, look, cut, star,
  plus, opt, Rule, Grammar, find_rule,
}
use endb.Peg.Outcome.{done, fault, overflow, undefined, fuel, follow}
use endb.Peg.Leaf.{Crates}
use endb.Peg.Machine.{run, run_seq, run_ord, run_star, run_rule, open_rule, close_rule}
use endb.Peg.Ensures.{
  Ensures, holds, faulted, Ensures-map, Ensures-follow, Ensures-done, Ensures-or_fault, Returns-any,
}
pub use Rules.{open_rule-close_rule-returns}
use Rules.{open_rule-close_rule-Grows}
pub use Steps.{Grows, Grows-refl, Grows-trans, Grows-truncate}
use Steps.{end_neg-Grows, run_pattern-Grows, run_literal-Grows}

module _ (lib : Crates) (grammar : Grammar) (input : Str) where
  abbrev Keeps : ParseState → ParseResult → ParseState → Type 0
  Keeps st r st' = Grows st st'

  mutual
    unfolding run

    pub run-Ensures :
        (f : ℕ) (p : PegParser) (pos : ℕ) (st : ParseState)
        → Ensures (Keeps st) (run lib grammar input f p pos st)
    run-Ensures zero p pos st = faulted
    run-Ensures (suc f) (pattern p) pos st = run_pattern-Grows lib input p pos st
    run-Ensures (suc f) (literal l) pos st = run_literal-Grows lib input l pos st
    run-Ensures (suc f) (seq ps) pos st = run_seq-Ensures f ps pos st st (Grows-refl st)
    run-Ensures (suc f) (ord ps) pos st = run_ord-Ensures f ps pos st st (Grows-refl st)
    run-Ensures (suc f) (star p) pos st = run_star-Ensures f p pos st
    run-Ensures (suc f) (neg p) pos st =
        Ensures-follow (run-Ensures f p pos st) λ r st' g. end_neg-Grows pos r g
    run-Ensures (suc f) (cut p) pos st = Ensures-follow (run-Ensures f p pos st) λ r st' g. holds g
    run-Ensures (suc f) (non_terminal id) pos st =
        Ensures-or_fault undefined _ (Returns-any (find_rule id grammar))
          λ rule _. run_rule-Ensures f rule pos st
    run-Ensures (suc f) (look p) pos st = run-Ensures f (neg (neg p)) pos st
    run-Ensures (suc f) (plus p) pos st = run-Ensures f (seq (p ▹ star p ▹ end)) pos st
    run-Ensures (suc f) (opt p) pos st = run-Ensures f (ord (p ▹ literal "" ▹ end)) pos st

    run_seq-Ensures :
        (f : ℕ) (ps : PegParsers) (pos : ℕ) (st₀ st : ParseState)
        → Grows st₀ st
        → Ensures (Keeps st₀) (run_seq lib grammar input f (length st₀.events) ps pos st)
    run_seq-Ensures zero ps pos st₀ st g = faulted
    run_seq-Ensures (suc f) end pos st₀ st g = holds g
    run_seq-Ensures (suc f) (p ▹ ps) pos st₀ st g = Ensures-follow (run-Ensures f p pos st) (elim [
      | ok new_pos ↦ λ st' g'. run_seq-Ensures f ps new_pos st₀ st' (Grows-trans g g')
      | err e ↦ λ st' g'. holds (Grows-truncate (Grows-trans g g'))
    ])

    run_ord-Ensures :
        (f : ℕ) (ps : PegParsers) (pos : ℕ) (st₀ st : ParseState)
        → Grows st₀ st
        → Ensures (Keeps st₀) (run_ord lib grammar input f (length st₀.events) ps pos st)
    run_ord-Ensures zero ps pos st₀ st g = faulted
    run_ord-Ensures (suc f) end pos st₀ st g = holds g
    run_ord-Ensures (suc f) (p ▹ ps) pos st₀ st g = Ensures-follow (run-Ensures f p pos st) (elim [
      | ok new_pos ↦ λ st' g'. holds (Grows-trans g g')
      | err ParseErr.error ↦ λ st' g'. holds (Grows-truncate (Grows-trans g g'))
      | err fail ↦ λ st' g'. run_ord-Ensures f ps pos st₀ _ (Grows-truncate (Grows-trans g g'))
    ])

    run_star-Ensures :
        (f : ℕ) (p : PegParser) (pos : ℕ) (st : ParseState)
        → Ensures (Keeps st) (run_star lib grammar input f p pos st)
    run_star-Ensures zero p pos st = faulted
    run_star-Ensures (suc f) p pos st = Ensures-follow (run-Ensures f p pos st) (elim [
      | ok new_pos ↦
          λ st' g'. Ensures-map (λ _ _ g''. Grows-trans g' g'') (run_star-Ensures f p new_pos st')
      | err ParseErr.error ↦ λ st' g'. holds (Grows-truncate g')
      | err fail ↦ λ st' g'. holds (Grows-truncate g')
    ])

    run_rule-Ensures :
        (f : ℕ) (rule : Rule) (pos : ℕ) (st : ParseState)
        → Ensures (Keeps st) (run_rule lib grammar input f rule pos st)
    run_rule-Ensures zero rule pos st = faulted
    run_rule-Ensures (suc f) rule pos st =
        Ensures-or_fault overflow _ (Returns-any (open_rule rule pos st)) λ (open_idx, opened) e.
          Ensures-follow (run-Ensures f rule.body pos opened)
            λ r st' g. open_rule-close_rule-Grows rule pos st e r g

  -- A parser that returns, in success or in failure, has appended a well-nested forest to the
  -- events, each `Open` closed under its own index with its own `hide`, and a well-nested trace to
  -- the errors, which stay as they are unless they are tracked.
  pub run-Grows :
      (f : ℕ) (p : PegParser) (pos : ℕ) (st : ParseState) {r : ParseResult} {st' : ParseState}
      → run lib grammar input f p pos st ≡ done r st'
      → Grows st st'
  run-Grows f p pos st e = Ensures-done (run-Ensures f p pos st) e
