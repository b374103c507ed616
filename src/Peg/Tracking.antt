-- ===== src/Peg/Tracking.antt =====
-- lib/endb_proc_macro/src/lib.rs: what `track_errors` changes.
use endb.Prelude.{
  ℕ, zero, suc, String, Bool, false, Option, none, some, [], ◌≡◌, refl, arith, length, inl, inr,
  Bool-cases, ◌+◌,
}
use endb.Prelude.Text.{Str}
use endb.Cst.Event.{Event, ParseState, ParseErr, ParseResult, ok, err, fail}
use endb.Peg.Syntax.{
  PegParser, PegParsers, end, ◌▹◌, seq, ord, pattern, literal, non_terminal, neg, look, cut, star,
  plus, opt, Rule, Grammar, find_rule,
}
use endb.Peg.Outcome.{Outcome, Fault, done, fault, overflow, undefined, follow, or_fault}
use endb.Peg.Leaf.{Crates, run_pattern, run_literal, push_error, push_pattern, push_literal, ◌>>=◌}
use endb.Peg.Machine.{
  run, run_seq, run_ord, run_star, run_rule, open_rule, close_rule, close_event, end_neg,
  truncate_events,
}

-- the state as an untracked parse has it
abbrev pub untrack : ParseState → ParseState
untrack st = record { events = st.events; errors = []; track_errors = false }

abbrev pub untrack_outcome : Outcome → Outcome
untrack_outcome (done r st) = done r (untrack st)
untrack_outcome (fault x) = fault x

follow-untrack :
    (o : Outcome) {o' : Outcome} (k k' : ParseResult → ParseState → Outcome)
    → o' ≡ untrack_outcome o
    → ((r : ParseResult) (st : ParseState) → k' r (untrack st) ≡ untrack_outcome (k r st))
    → follow o' k' ≡ untrack_outcome (follow o k)
follow-untrack (done r st) k k' e h = rw e (h r st)
follow-untrack (fault x) k k' e h = rw e

or_fault-untrack {ℓ} :
    {A : Type ℓ} (x : Fault) (m : Option A) (k k' : A → Outcome)
    → ((a : A) → k' a ≡ untrack_outcome (k a))
    → or_fault x m k' ≡ untrack_outcome (or_fault x m k)
or_fault-untrack x none k k' h = refl
or_fault-untrack x (some a) k k' h = h a

enter-untrack :
    (x : Fault) (m : Option (ℕ × ParseState)) {m' : Option (ℕ × ParseState)}
    (k k' : ℕ × ParseState → Outcome)
    → m' ≡ (m >>= λ (i, st). some (i, untrack st))
    → ((i : ℕ) (st : ParseState) → k' (i, untrack st) ≡ untrack_outcome (k (i, st)))
    → or_fault x m' k' ≡ untrack_outcome (or_fault x m k)
enter-untrack x none k k' e h = rw e
enter-untrack x (some (i, st)) k k' e h = rw e (h i st)

push_error-untrack : (e : Event) (st : ParseState) → untrack (push_error e st) ≡ untrack st
push_error-untrack e st = elim (Bool-cases st.track_errors) [
  | inl t ↦ ground arith
  | inr t ↦ ground arith
]

push_pattern-untrack :
    (pos a b new_pos : ℕ) (st : ParseState)
    → push_pattern pos a b new_pos (untrack st)
      ≡ (push_pattern pos a b new_pos st >>= λ st'. some (untrack st'))
unfolding push_pattern
push_pattern-untrack pos a b new_pos st = ground arith

push_literal-untrack :
    (lit : String) (pos stop : ℕ) (st : ParseState)
    → push_literal lit pos stop (untrack st)
      ≡ (push_literal lit pos stop st >>= λ st'. some (untrack st'))
unfolding push_literal
push_literal-untrack lit pos stop st = ground arith

end_neg-untrack :
    (idx err_idx any pos : ℕ) (r : ParseResult) (st : ParseState)
    → end_neg idx any pos r (untrack st) ≡ untrack_outcome (end_neg idx err_idx pos r st)
unfolding end_neg
end_neg-untrack idx err_idx any pos (ok new_pos) st = ground arith
end_neg-untrack idx err_idx any pos (err e) st = ground arith

close_event-untrack :
    (hide : Bool) (idx : ℕ) (st : ParseState)
    → close_event hide idx (untrack st)
      ≡ (close_event hide idx st >>= λ (e, st'). some (e, untrack st'))
unfolding close_event
close_event-untrack hide idx st = ground arith

close_rule-untrack :
    (rule : Rule) (idx : ℕ) (r : ParseResult) (st : ParseState)
    → close_rule rule idx r (untrack st) ≡ untrack_outcome (close_rule rule idx r st)
unfolding close_rule
close_rule-untrack rule idx r st = ground (arith, close_event-untrack rule.hide idx st)

open_rule-untrack :
    (rule : Rule) (pos : ℕ) (st : ParseState)
    → open_rule rule pos (untrack st)
      ≡ (open_rule rule pos st >>= λ (i, st'). some (i, untrack st'))
unfolding open_rule
open_rule-untrack rule pos st = ground arith

module _ (lib : Crates) (input : Str) where
  run_pattern-untrack :
      (p : String) (pos : ℕ) (st : ParseState)
      → run_pattern lib input p pos (untrack st) ≡ untrack_outcome (run_pattern lib input p pos st)
  unfolding run_pattern
  run_pattern-untrack p pos st =
      ground (arith, λ (a b : ℕ). push_pattern-untrack pos a b (pos + b) st)

  run_literal-untrack :
      (lit : String) (pos : ℕ) (st : ParseState)
      → run_literal lib input lit pos (untrack st)
        ≡ untrack_outcome (run_literal lib input lit pos st)
  unfolding run_literal
  run_literal-untrack lit pos st = ground arith

module _ (lib : Crates) (grammar : Grammar) (input : Str) where
  abbrev Untracks : (ParseState → Outcome) → ParseState → Type 0
  Untracks m st = m (untrack st) ≡ untrack_outcome (m st)

  mutual
    unfolding run

    run-untrack :
        (f : ℕ) (p : PegParser) (pos : ℕ) (st : ParseState)
        → Untracks (run lib grammar input f p pos) st
    run-untrack zero p pos st = refl
    run-untrack (suc f) (pattern p) pos st = run_pattern-untrack lib input p pos st
    run-untrack (suc f) (literal l) pos st = run_literal-untrack lib input l pos st
    run-untrack (suc f) (seq ps) pos st = run_seq-untrack f (length st.events) ps pos st
    run-untrack (suc f) (ord ps) pos st = run_ord-untrack f (length st.events) ps pos st
    run-untrack (suc f) (star p) pos st = run_star-untrack f p pos st
    run-untrack (suc f) (neg p) pos st =
        follow-untrack (run lib grammar input f p pos st) _ _ (run-untrack f p pos st)
          (end_neg-untrack _ _ _ pos)
    run-untrack (suc f) (cut p) pos st =
        follow-untrack (run lib grammar input f p pos st) _ _ (run-untrack f p pos st) λ r st'. refl
    run-untrack (suc f) (non_terminal id) pos st =
        or_fault-untrack undefined (find_rule id grammar) _ _ λ rule. run_rule-untrack f rule pos st
    run-untrack (suc f) (look p) pos st = run-untrack f (neg (neg p)) pos st
    run-untrack (suc f) (plus p) pos st = run-untrack f (seq (p ▹ star p ▹ end)) pos st
    run-untrack (suc f) (opt p) pos st = run-untrack f (ord (p ▹ literal "" ▹ end)) pos st

    run_seq-untrack :
        (f idx : ℕ) (ps : PegParsers) (pos : ℕ) (st : ParseState)
        → Untracks (run_seq lib grammar input f idx ps pos) st
    run_seq-untrack zero idx ps pos st = refl
    run_seq-untrack (suc f) idx end pos st = refl
    run_seq-untrack (suc f) idx (p ▹ ps) pos st =
        follow-untrack (run lib grammar input f p pos st) _ _ (run-untrack f p pos st)
          (elim [ ok new_pos ↦ λ st'. run_seq-untrack f idx ps new_pos st' | err e ↦ λ st'. refl ])

    run_ord-untrack :
        (f idx : ℕ) (ps : PegParsers) (pos : ℕ) (st : ParseState)
        → Untracks (run_ord lib grammar input f idx ps pos) st
    run_ord-untrack zero idx ps pos st = refl
    run_ord-untrack (suc f) idx end pos st = refl
    run_ord-untrack (suc f) idx (p ▹ ps) pos st =
        follow-untrack (run lib grammar input f p pos st) _ _ (run-untrack f p pos st) (elim [
          | ok new_pos ↦ λ st'. refl
          | err ParseErr.error ↦ λ st'. refl
          | err fail ↦ λ st'. run_ord-untrack f idx ps pos (truncate_events idx st')
        ])

    run_star-untrack :
        (f : ℕ) (p : PegParser) (pos : ℕ) (st : ParseState)
        → Untracks (run_star lib grammar input f p pos) st
    run_star-untrack zero p pos st = refl
    run_star-untrack (suc f) p pos st =
        follow-untrack (run lib grammar input f p pos st) _ _ (run-untrack f p pos st) (elim [
          | ok new_pos ↦ λ st'. run_star-untrack f p new_pos st'
          | err ParseErr.error ↦ λ st'. refl
          | err fail ↦ λ st'. refl
        ])

    run_rule-untrack :
        (f : ℕ) (rule : Rule) (pos : ℕ) (st : ParseState)
        → Untracks (run_rule lib grammar input f rule pos) st
    run_rule-untrack zero rule pos st = refl
    run_rule-untrack (suc f) rule pos st =
        enter-untrack overflow (open_rule rule pos st) _ _ (open_rule-untrack rule pos st)
          λ i opened.
            follow-untrack (run lib grammar input f rule.body pos opened) _ _
              (run-untrack f rule.body pos opened) (close_rule-untrack rule i)

  -- Tracking errors changes neither the result of a parse nor its events nor its faults: run
  -- without tracking, from the same events, it comes to the same outcome.
  pub run-untracked :
      (f : ℕ) (p : PegParser) (pos : ℕ) (st : ParseState)
      → run lib grammar input f p pos (untrack st)
        ≡ untrack_outcome (run lib grammar input f p pos st)
  run-untracked = run-untrack
