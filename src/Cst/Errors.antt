-- ===== src/Cst/Errors.antt =====
-- lib/endb_cst/src/lib.rs, `events_to_errors`: the errors at the furthest position, each with the
-- labels of the rules that are open around it.
pub mod Laws
pub mod Furthest
use endb.Prelude.{
  ℕ, String, Bool, true, false, Option, none, some, List, [], ◌∷◌, if◌then◌else◌, ltb, ◌==◌, push,
  pop,
}
use endb.Cst.Event.{Event, open_node, close_node, ParseErrorDescriptor}

-- `range` is `start..stop`; a context entry is a label with its position
pub record ParseError : Type 0 where
  pub descriptor : ParseErrorDescriptor
  pub start : ℕ
  pub stop : ℕ
  pub context : List (String × ℕ)

-- the variables of the loop
pub record ErrorScan : Type 0 where
  pub context : List (String × ℕ)
  pub errors : List ParseError
  pub max_error_pos : ℕ

-- `if range.start > max_error_pos { .. }`
abbrev pub clear_below : ℕ → ErrorScan → ErrorScan
clear_below start s =
    if ltb s.max_error_pos start then record s { errors = []; max_error_pos = start } else s

-- `if range.start == max_error_pos { errors.push(..) }`
abbrev pub push_at_max : ParseError → ErrorScan → ErrorScan
push_at_max e s = if e.start == s.max_error_pos then record s { errors = push s.errors e } else s

-- One round of the loop; `none` is the panic "unbalanced tree".
unfoldable pub scan_event : Event → ErrorScan → Option ErrorScan
scan_event (open_node label pos false) s = some (record s { context = push s.context (label, pos) })
scan_event (open_node label pos true) s = some s
scan_event (close_node open_idx false) s = elim (pop s.context) [
  | none ↦ none
  | some context ↦ some (record s { context = context })
]
scan_event (close_node open_idx true) s = some s
scan_event (Event.error start stop descriptor) s =
    let error : ParseError = record {
      descriptor = descriptor;
      start = start;
      stop = stop;
      context = s.context;
    } in
    some (push_at_max error (clear_below start s))
scan_event (Event.literal l a b) s = some s
scan_event (Event.pattern a b) s = some s

unfoldable pub scan_events : List Event → ErrorScan → Option ErrorScan
unfolding scan_event
scan_events [] s = some s
scan_events (e ∷ es) s = elim (scan_event e s) [ none ↦ none | some s' ↦ scan_events es s' ]

abbrev pub start_scan : ErrorScan
start_scan = record { context = []; errors = []; max_error_pos = 0 }

unfoldable pub events_to_errors : List Event → Option (List ParseError)
unfolding scan_events
events_to_errors events = elim (scan_events events start_scan) [
  | none ↦ none
  | some s ↦ some s.errors
]
