-- ===== src/Peg/Machine.antt =====
-- lib/endb_proc_macro/src/lib.rs, `ToTokens for PegParser` and `ToTokens for Rule`: the parsers
-- that call other parsers. Each call spends one unit of fuel.
use endb.Prelude.{
  ℕ, zero, suc, ◌+◌, ◌%◌, Bool, true, false, Option, some, List, ◌==◌, if◌then◌else◌, length, take,
  last?, get_elem?, set,
}
use endb.Prelude.Text.{Str}
use endb.Cst.Event.{
  Event, open_node, close_node, ParseState, ParseErr, ParseResult, ok, err, fail, unexpected,
}
use endb.Peg.Syntax.{
  PegParser, PegParsers, end, ◌▹◌, seq, ord, pattern, literal, non_terminal, neg, look, cut, star,
  plus, opt, Rule, Grammar, find_rule,
}
use endb.Peg.Outcome.{Outcome, done, fault, overflow, undefined, fuel, follow, or_fault}
use endb.Peg.Leaf.{
  Crates, push_event, push_error, run_pattern, run_literal, to_u32, u32_mod, ◌>>=◌, unwrap,
}

-- `state.events.truncate(idx)`
abbrev pub truncate_events : ℕ → ParseState → ParseState
truncate_events idx st = record st { events = take idx st.events }

-- `if state.track_errors { state.errors.truncate(err_idx); }`
abbrev pub truncate_errors : ℕ → ParseState → ParseState
truncate_errors err_idx st =
    if st.track_errors then record st { errors = take err_idx st.errors } else st

-- `Neg` once its parser has returned
unfoldable pub end_neg : ℕ → ℕ → ℕ → ParseResult → ParseState → Outcome
end_neg idx err_idx pos (err e) st =
    done (ok pos) (truncate_errors err_idx (truncate_events idx st))
end_neg idx err_idx pos (ok new_pos) st = done (err fail) (
    push_error (Event.error pos new_pos unexpected)
      (truncate_errors err_idx (truncate_events idx st)))

-- `.or(Err(ParseErr::Error))`
abbrev pub or_error : ParseResult → ParseResult
or_error (ok pos) = ok pos
or_error (err e) = err ParseErr.error

-- the head of a rule's function; the `u32` of `open_idx` is unwrapped
unfoldable pub open_rule : Rule → ℕ → ParseState → Option (ℕ × ParseState)
unfolding to_u32
open_rule rule pos st = do
  open_idx ← to_u32 (length st.events)
  let opened = open_node rule.id pos false
  some (open_idx, push_error opened (push_event opened st))

-- whether an event is the `Close` of the node at `idx`
abbrev pub closes : ℕ → Event → Bool
closes idx (close_node open_idx hide) = open_idx == idx
closes idx _ = false

abbrev pub hidden : Event → Event
hidden (open_node label pos hide) = open_node label pos true
hidden e = e

-- `if let Event::Open { ref mut hide, .. } = state.events[open_idx] { *hide = true; }`
unfoldable pub hide_open : ℕ → List Event → Option (List Event)
hide_open open_idx events = do e ← get_elem? events open_idx; some (set events open_idx (hidden e))

-- `#hide_src` of a hidden rule: the close event, and the events with the node hidden if its only
-- child is a node
unfoldable pub hide_src : ℕ → ParseState → Option (Event × ParseState)
unfolding hide_open
hide_src open_idx st = do
  last ← last? st.events
  if closes ((open_idx + 1) % u32_mod) last
      then (do
        events ← hide_open open_idx st.events
        some (close_node open_idx true, record st { events = events }))
      else some (close_node open_idx false, st)

unfoldable pub close_event : Bool → ℕ → ParseState → Option (Event × ParseState)
unfolding hide_src
close_event true open_idx st = hide_src open_idx st
close_event false open_idx st = some (close_node open_idx false, st)

-- the rest of a rule's function
unfoldable pub close_rule : Rule → ℕ → ParseResult → ParseState → Outcome
unfolding close_event
close_rule rule open_idx r st =
    unwrap do
      (e, st') ← close_event rule.hide open_idx st
      some (done r (push_error e (push_event e st')))

module _ (lib : Crates) (grammar : Grammar) (input : Str) where
  unfoldable mutual
    pub run : ℕ → PegParser → ℕ → ParseState → Outcome
    run zero p pos st = fault fuel
    run (suc f) (pattern p) pos st = run_pattern lib input p pos st
    run (suc f) (literal l) pos st = run_literal lib input l pos st
    run (suc f) (seq ps) pos st = run_seq f (length st.events) ps pos st
    run (suc f) (ord ps) pos st = run_ord f (length st.events) ps pos st
    run (suc f) (star p) pos st = run_star f p pos st
    run (suc f) (neg p) pos st =
        follow (run f p pos st) (end_neg (length st.events) (length st.errors) pos)
    run (suc f) (cut p) pos st = follow (run f p pos st) λ r st'. done (or_error r) st'
    run (suc f) (non_terminal id) pos st =
        or_fault undefined (find_rule id grammar) λ rule. run_rule f rule pos st
    run (suc f) (look p) pos st = run f (neg (neg p)) pos st
    run (suc f) (plus p) pos st = run f (seq (p ▹ star p ▹ end)) pos st
    run (suc f) (opt p) pos st = run f (ord (p ▹ literal "" ▹ end)) pos st

    pub run_seq : ℕ → ℕ → PegParsers → ℕ → ParseState → Outcome
    run_seq zero idx ps pos st = fault fuel
    run_seq (suc f) idx end pos st = done (ok pos) st
    run_seq (suc f) idx (p ▹ ps) pos st = follow (run f p pos st) λ r st'. elim r [
      | ok new_pos ↦ run_seq f idx ps new_pos st'
      | err e ↦ done (err e) (truncate_events idx st')
    ]

    pub run_ord : ℕ → ℕ → PegParsers → ℕ → ParseState → Outcome
    run_ord zero idx ps pos st = fault fuel
    run_ord (suc f) idx end pos st = done (err fail) st
    run_ord (suc f) idx (p ▹ ps) pos st = follow (run f p pos st) λ r st'. elim r [
      | ok new_pos ↦ done (ok new_pos) st'
      | err e ↦ elim e [
        | ParseErr.error ↦ done (err ParseErr.error) (truncate_events idx st')
        | fail ↦ run_ord f idx ps pos (truncate_events idx st')
      ]
    ]

    pub run_star : ℕ → PegParser → ℕ → ParseState → Outcome
    run_star zero p pos st = fault fuel
    run_star (suc f) p pos st = follow (run f p pos st) λ r st'. elim r [
      | ok new_pos ↦ run_star f p new_pos st'
      | err e ↦ elim e [
        | ParseErr.error ↦ done (err ParseErr.error) (truncate_events (length st.events) st')
        | fail ↦ done (ok pos) (truncate_events (length st.events) st')
      ]
    ]

    pub run_rule : ℕ → Rule → ℕ → ParseState → Outcome
    run_rule zero rule pos st = fault fuel
    run_rule (suc f) rule pos st =
        or_fault overflow (open_rule rule pos st)
          λ (open_idx, opened). follow (run f rule.body pos opened) (close_rule rule open_idx)
