-- ===== src/Peg/Bounds.antt =====
-- lib/endb_proc_macro/src/lib.rs: the ranges of the tokens that a parse leaves in its events.
mod Tokens
pub use Tokens.{InBounds, Within, Lands, to_u32_same}
use endb.Prelude.{
  ℕ, zero, suc, ◌+◌, ◌≤◌, Bool, true, false, Option, some, List, [], ◌∷◌, ◌++◌, ◌≡◌, refl, arith,
  length, take, set, subst, get_elem?, last?, push, inl, inr, Option-cases, Bool-cases, ◌%◌, ◌==◌,
}
use mathlib.Core.Option.{some-injective}
use endb.Prelude.Text.{Str}
use endb.Prelude.Slices.{At}
use endb.Cst.Event.{
  Event, open_node, close_node, ParseState, ParseErr, ParseResult, ok, err, fail, unexpected,
}
use endb.Peg.Syntax.{
  PegParser, PegParsers, end, ◌▹◌, seq, ord, pattern, literal, non_terminal, neg, look, cut, star,
  plus, opt, Rule, Grammar, find_rule,
}
use endb.Peg.Outcome.{Outcome, done, undefined, overflow, follow, or_fault}
use endb.Peg.Leaf.{Crates, push_error, to_u32, ◌>>=◌, u32_mod, push_event}
use endb.Peg.Machine.{
  run, run_seq, run_ord, run_star, run_rule, end_neg, truncate_events, truncate_errors, open_rule,
  close_rule, close_event, hide_src, hide_open, hidden, closes,
}
use endb.Peg.Ensures.{
  Ensures, holds, faulted, Ensures-follow, Ensures-done, Ensures-unwrap, Ensures-or_fault,
  Returns-any, Returns, panics, value, Returns-bind,
}
use endb.Peg.Progress.{RegexLaws}
use Tokens.{
  Within-push, push_error-Within, truncate_errors-Within, run_pattern-Within, run_literal-Within,
}
use endb.Peg.WellFormed.{Analysis}

module _ (input : Str) where
  Within-take : (n : ℕ) (es : List Event) → Within input es → Within input (take n es)
  Within-take zero es w = tt
  Within-take (suc n) [] w = tt
  Within-take (suc n) (e ∷ es) (b, w) = (b, Within-take n es w)

  InBounds-hidden : (e : Event) → InBounds input e → InBounds input (hidden e)
  InBounds-hidden (open_node l p h) b = tt
  InBounds-hidden (close_node i h) b = tt
  InBounds-hidden (Event.literal l x y) b = b
  InBounds-hidden (Event.pattern x y) b = b
  InBounds-hidden (Event.error x y d) b = tt

  Within-hide :
      (i : ℕ) (es : List Event) (e : Event)
      → get_elem? es i ≡ some e
      → Within input es
      → Within input (set es i (hidden e))
  Within-hide i [] e h w = tt
  Within-hide zero (x ∷ es) e h (b, w) =
      (InBounds-hidden e (subst (InBounds input) (some-injective _ _ h) b), w)
  Within-hide (suc i) (x ∷ es) e h (b, w) = (b, Within-hide i es e h w)

  abbrev Kept : Event × ParseState → Type 0
  Kept (e, st) = InBounds input e × Within input st.events

  hide_src-Within :
      (i : ℕ) (st : ParseState) → Within input st.events → Returns Kept (hide_src i st)
  unfolding hide_src
  hide_src-Within i st w = Returns-bind (Returns-any (last? st.events)) λ last _.
      elim (Bool-cases (closes ((i + 1) % u32_mod) last)) [
        | inr e ↦ rw e (value (tt, w))
        | inl e ↦ rw e (
            Returns-bind
              (Returns-bind (Returns-any (get_elem? st.events i))
                λ x h. value (Within-hide i st.events x h w))
              λ events w'. value (tt, w'))
      ]

  close_event-Within :
      (hide : Bool) (i : ℕ) (st : ParseState)
      → Within input st.events
      → Returns Kept (close_event hide i st)
  unfolding close_event
  close_event-Within true i st w = hide_src-Within i st w
  close_event-Within false i st w = value (tt, w)

  abbrev Good : ParseResult → ParseState → Type 0
  Good r st = Lands input r × Within input st.events

  close_rule-Within :
      (rule : Rule) (i : ℕ) (r : ParseResult) (st : ParseState)
      → Good r st
      → Ensures Good (close_rule rule i r st)
  unfolding close_rule
  close_rule-Within rule i r st (l, w) =
      Ensures-unwrap _ (close_event-Within rule.hide i st w) λ (e, st') (b, w').
        holds
          (l, push_error-Within input e (push_event e st') (Within-push input st'.events e w' b))

  end_neg-Within :
      (idx err_idx pos : ℕ) (r : ParseResult) (st : ParseState)
      → At input pos
      → Within input st.events
      → Ensures Good (end_neg idx err_idx pos r st)
  unfolding end_neg
  end_neg-Within idx err_idx pos (ok new_pos) st at w = holds (
    tt,
    push_error-Within input (Event.error pos new_pos unexpected)
        (truncate_errors err_idx (truncate_events idx st))
        (truncate_errors-Within input err_idx (truncate_events idx st)
          (Within-take idx st.events w)),
  )
  end_neg-Within idx err_idx pos (err e) st at w = holds (
    at,
    truncate_errors-Within input err_idx (truncate_events idx st) (Within-take idx st.events w),
  )

  open_rule-Within :
      (rule : Rule) (pos : ℕ) (st : ParseState)
      → Within input st.events
      → Returns (λ (i, opened). Within input opened.events) (open_rule rule pos st)
  unfolding open_rule
  open_rule-Within rule pos st w = Returns-bind (Returns-any (to_u32 (length st.events))) λ i _.
      let opened = open_node rule.id pos false in
      value (
        push_error-Within input opened (push_event opened st)
          (Within-push input st.events opened w tt))

module _ (lib : Crates) (g : Grammar) (a : Analysis) (input : Str) (laws : RegexLaws lib a) where
  mutual
    unfolding run

    run-Within :
        (f : ℕ) (p : PegParser) (pos : ℕ) (st : ParseState)
        → At input pos
        → Within input st.events
        → Ensures (Good input) (run lib g input f p pos st)
    run-Within zero p pos st at w = faulted
    run-Within (suc f) (pattern p) pos st at w = run_pattern-Within input lib a laws p pos st at w
    run-Within (suc f) (literal l) pos st at w = run_literal-Within input lib a laws l pos st at w
    run-Within (suc f) (seq ps) pos st at w = run_seq-Within f (length st.events) ps pos st at w
    run-Within (suc f) (ord ps) pos st at w = run_ord-Within f (length st.events) ps pos st at w
    run-Within (suc f) (star p) pos st at w = run_star-Within f p pos st at w
    run-Within (suc f) (neg p) pos st at w =
        Ensures-follow (run-Within f p pos st at w)
          λ r st' (_, w'). end_neg-Within input _ _ pos r st' at w'
    run-Within (suc f) (cut p) pos st at w =
        Ensures-follow (run-Within f p pos st at w)
          (elim [ ok new_pos ↦ λ st' good. holds good | err e ↦ λ st' good. holds good ])
    run-Within (suc f) (non_terminal id) pos st at w =
        Ensures-or_fault undefined _ (Returns-any (find_rule id g))
          λ rule _. run_rule-Within f rule pos st at w
    run-Within (suc f) (look p) pos st at w = run-Within f (neg (neg p)) pos st at w
    run-Within (suc f) (plus p) pos st at w = run-Within f (seq (p ▹ star p ▹ end)) pos st at w
    run-Within (suc f) (opt p) pos st at w = run-Within f (ord (p ▹ literal "" ▹ end)) pos st at w

    run_seq-Within :
        (f idx : ℕ) (ps : PegParsers) (pos : ℕ) (st : ParseState)
        → At input pos
        → Within input st.events
        → Ensures (Good input) (run_seq lib g input f idx ps pos st)
    run_seq-Within zero idx ps pos st at w = faulted
    run_seq-Within (suc f) idx end pos st at w = holds (at, w)
    run_seq-Within (suc f) idx (p ▹ ps) pos st at w =
        Ensures-follow (run-Within f p pos st at w) (elim [
          | ok new_pos ↦ λ st' (at', w'). run_seq-Within f idx ps new_pos st' at' w'
          | err e ↦ λ st' (_, w'). holds (tt, Within-take input idx st'.events w')
        ])

    run_ord-Within :
        (f idx : ℕ) (ps : PegParsers) (pos : ℕ) (st : ParseState)
        → At input pos
        → Within input st.events
        → Ensures (Good input) (run_ord lib g input f idx ps pos st)
    run_ord-Within zero idx ps pos st at w = faulted
    run_ord-Within (suc f) idx end pos st at w = holds (tt, w)
    run_ord-Within (suc f) idx (p ▹ ps) pos st at w =
        Ensures-follow (run-Within f p pos st at w) (elim [
          | ok new_pos ↦ λ st' good. holds good
          | err ParseErr.error ↦ λ st' (_, w'). holds (tt, Within-take input idx st'.events w')
          | err fail ↦ λ st' (_, w').
              run_ord-Within f idx ps pos (truncate_events idx st') at
                (Within-take input idx st'.events w')
        ])

    run_star-Within :
        (f : ℕ) (p : PegParser) (pos : ℕ) (st : ParseState)
        → At input pos
        → Within input st.events
        → Ensures (Good input) (run_star lib g input f p pos st)
    run_star-Within zero p pos st at w = faulted
    run_star-Within (suc f) p pos st at w = Ensures-follow (run-Within f p pos st at w) (elim [
      | ok new_pos ↦ λ st' (at', w'). run_star-Within f p new_pos st' at' w'
      | err ParseErr.error ↦
          λ st' (_, w'). holds (tt, Within-take input (length st.events) st'.events w')
      | err fail ↦ λ st' (_, w'). holds (at, Within-take input (length st.events) st'.events w')
    ])

    run_rule-Within :
        (f : ℕ) (rule : Rule) (pos : ℕ) (st : ParseState)
        → At input pos
        → Within input st.events
        → Ensures (Good input) (run_rule lib g input f rule pos st)
    run_rule-Within zero rule pos st at w = faulted
    run_rule-Within (suc f) rule pos st at w =
        Ensures-or_fault overflow _ (open_rule-Within input rule pos st w) λ (i, opened) w'.
          Ensures-follow (run-Within f rule.body pos opened at w')
            λ r st' good. close_rule-Within input rule i r st' good

  -- A parser that starts on a character boundary, in events whose tokens are ranges of the input
  -- between boundaries, returns with such events, and a success ends on a boundary.
  pub run_in_bounds :
      (f : ℕ) (p : PegParser) (pos : ℕ) (st : ParseState) {r : ParseResult} {st' : ParseState}
      → At input pos
      → Within input st.events
      → run lib g input f p pos st ≡ done r st'
      → Lands input r × Within input st'.events
  run_in_bounds f p pos st at w e = Ensures-done (run-Within f p pos st at w) e
