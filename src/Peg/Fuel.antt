-- ===== src/Peg/Fuel.antt =====
-- lib/endb_proc_macro/src/lib.rs: how an outcome of the generated parsers depends on the fuel.
use endb.Prelude.{ℕ, zero, suc, ◌≤◌, Option, none, some, ◌≡◌, ◌≢◌, refl, arith, length}
use endb.Prelude.Text.{Str}
use endb.Cst.Event.{ParseState, ParseErr, ParseResult, ok, err, fail}
use endb.Peg.Syntax.{
  PegParser, PegParsers, end, ◌▹◌, seq, ord, pattern, literal, non_terminal, neg, look, cut, star,
  plus, opt, Rule, Grammar, find_rule,
}
use endb.Peg.Outcome.{Outcome, Fault, done, fault, fuel, overflow, undefined, follow, or_fault}
use endb.Peg.Leaf.{Crates}
use endb.Peg.Machine.{run, run_seq, run_ord, run_star, run_rule, open_rule, truncate_events}

-- The right outcome is the left one, unless the left one ran out of fuel.
infix 50 ◌⊑◌
data ◌⊑◌ : Outcome → Outcome → Type 0 where
  short : {o : Outcome} → fault fuel ⊑ o
  same : {o : Outcome} → o ⊑ o

follow-⊑ :
    {o o' : Outcome} (k k' : ParseResult → ParseState → Outcome)
    → o ⊑ o'
    → ((r : ParseResult) (st : ParseState) → k r st ⊑ k' r st)
    → follow o k ⊑ follow o' k'
follow-⊑ k k' short h = short
follow-⊑ k k' (same {o = done r st}) h = h r st
follow-⊑ k k' (same {o = fault x}) h = same

or_fault-⊑ {ℓ} :
    {A : Type ℓ} (x : Fault) (m : Option A) (k k' : A → Outcome)
    → ((a : A) → k a ⊑ k' a)
    → or_fault x m k ⊑ or_fault x m k'
or_fault-⊑ x none k k' h = same
or_fault-⊑ x (some a) k k' h = h a

⊑→eq : {o o' : Outcome} → o ⊑ o' → o ≢ fault fuel → o' ≡ o
⊑→eq short h = absurd (h refl)
⊑→eq same h = refl

module _ (lib : Crates) (grammar : Grammar) (input : Str) where
  mutual
    unfolding run

    run-⊑ :
        (f g : ℕ)
        → f ≤ g
        → (p : PegParser) (pos : ℕ) (st : ParseState)
        → run lib grammar input f p pos st ⊑ run lib grammar input g p pos st
    run-⊑ zero g h p pos st = short
    run-⊑ (suc f) zero h p pos st = absurd (omega arith)
    run-⊑ (suc f) (suc g) h (pattern p) pos st = same
    run-⊑ (suc f) (suc g) h (literal l) pos st = same
    run-⊑ (suc f) (suc g) h (seq ps) pos st =
        run_seq-⊑ f g (omega arith) (length st.events) ps pos st
    run-⊑ (suc f) (suc g) h (ord ps) pos st =
        run_ord-⊑ f g (omega arith) (length st.events) ps pos st
    run-⊑ (suc f) (suc g) h (star p) pos st = run_star-⊑ f g (omega arith) p pos st
    run-⊑ (suc f) (suc g) h (neg p) pos st =
        follow-⊑ _ _ (run-⊑ f g (omega arith) p pos st) λ r st'. same
    run-⊑ (suc f) (suc g) h (cut p) pos st =
        follow-⊑ _ _ (run-⊑ f g (omega arith) p pos st) λ r st'. same
    run-⊑ (suc f) (suc g) h (non_terminal id) pos st =
        or_fault-⊑ undefined (find_rule id grammar) _ _
          λ rule. run_rule-⊑ f g (omega arith) rule pos st
    run-⊑ (suc f) (suc g) h (look p) pos st = run-⊑ f g (omega arith) (neg (neg p)) pos st
    run-⊑ (suc f) (suc g) h (plus p) pos st =
        run-⊑ f g (omega arith) (seq (p ▹ star p ▹ end)) pos st
    run-⊑ (suc f) (suc g) h (opt p) pos st =
        run-⊑ f g (omega arith) (ord (p ▹ literal "" ▹ end)) pos st

    run_seq-⊑ :
        (f g : ℕ)
        → f ≤ g
        → (idx : ℕ) (ps : PegParsers) (pos : ℕ) (st : ParseState)
        → run_seq lib grammar input f idx ps pos st ⊑ run_seq lib grammar input g idx ps pos st
    run_seq-⊑ zero g h idx ps pos st = short
    run_seq-⊑ (suc f) zero h idx ps pos st = absurd (omega arith)
    run_seq-⊑ (suc f) (suc g) h idx end pos st = same
    run_seq-⊑ (suc f) (suc g) h idx (p ▹ ps) pos st =
        follow-⊑ _ _ (run-⊑ f g (omega arith) p pos st) (elim [
          | ok new_pos ↦ λ st'. run_seq-⊑ f g (omega arith) idx ps new_pos st'
          | err e ↦ λ st'. same
        ])

    run_ord-⊑ :
        (f g : ℕ)
        → f ≤ g
        → (idx : ℕ) (ps : PegParsers) (pos : ℕ) (st : ParseState)
        → run_ord lib grammar input f idx ps pos st ⊑ run_ord lib grammar input g idx ps pos st
    run_ord-⊑ zero g h idx ps pos st = short
    run_ord-⊑ (suc f) zero h idx ps pos st = absurd (omega arith)
    run_ord-⊑ (suc f) (suc g) h idx end pos st = same
    run_ord-⊑ (suc f) (suc g) h idx (p ▹ ps) pos st =
        follow-⊑ _ _ (run-⊑ f g (omega arith) p pos st) (elim [
          | ok new_pos ↦ λ st'. same
          | err ParseErr.error ↦ λ st'. same
          | err fail ↦ λ st'. run_ord-⊑ f g (omega arith) idx ps pos (truncate_events idx st')
        ])

    run_star-⊑ :
        (f g : ℕ)
        → f ≤ g
        → (p : PegParser) (pos : ℕ) (st : ParseState)
        → run_star lib grammar input f p pos st ⊑ run_star lib grammar input g p pos st
    run_star-⊑ zero g h p pos st = short
    run_star-⊑ (suc f) zero h p pos st = absurd (omega arith)
    run_star-⊑ (suc f) (suc g) h p pos st = follow-⊑ _ _ (run-⊑ f g (omega arith) p pos st) (elim [
      | ok new_pos ↦ λ st'. run_star-⊑ f g (omega arith) p new_pos st'
      | err ParseErr.error ↦ λ st'. same
      | err fail ↦ λ st'. same
    ])

    run_rule-⊑ :
        (f g : ℕ)
        → f ≤ g
        → (rule : Rule) (pos : ℕ) (st : ParseState)
        → run_rule lib grammar input f rule pos st ⊑ run_rule lib grammar input g rule pos st
    run_rule-⊑ zero g h rule pos st = short
    run_rule-⊑ (suc f) zero h rule pos st = absurd (omega arith)
    run_rule-⊑ (suc f) (suc g) h rule pos st =
        or_fault-⊑ overflow (open_rule rule pos st) _ _ λ (open_idx, opened).
          follow-⊑ _ _ (run-⊑ f g (omega arith) rule.body pos opened) λ r st'. same

  -- An outcome other than running out of fuel is the outcome at every larger fuel.
  pub run_mono :
      (f g : ℕ) (p : PegParser) (pos : ℕ) (st : ParseState)
      → f ≤ g
      → run lib grammar input f p pos st ≢ fault fuel
      → run lib grammar input g p pos st ≡ run lib grammar input f p pos st
  run_mono f g p pos st h = ⊑→eq (run-⊑ f g h p pos st)
