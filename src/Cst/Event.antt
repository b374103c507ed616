-- ===== src/Cst/Event.antt =====
-- lib/endb_cst/src/lib.rs: the event stream and the parse state.
use endb.Prelude.{ℕ, String, Bool, List}

-- A range `a..b` is the two numbers.
pub data ParseErrorDescriptor : Type 0 where
  expected_literal : String → ParseErrorDescriptor
  expected_pattern : String → ParseErrorDescriptor
  labeled : String → ParseErrorDescriptor
  unexpected : ParseErrorDescriptor

-- `open_node label pos hide`, `close_node open_idx hide`, `literal literal start end`,
-- `pattern start end`, `error start end descriptor`
pub data Event : Type 0 where
  open_node : String → ℕ → Bool → Event
  close_node : ℕ → Bool → Event
  literal : String → ℕ → ℕ → Event
  pattern : ℕ → ℕ → Event
  error : ℕ → ℕ → ParseErrorDescriptor → Event

pub record ParseState : Type 0 where
  pub events : List Event
  pub errors : List Event
  pub track_errors : Bool

pub data ParseErr : Type 0 where
  fail error : ParseErr

pub data ParseResult : Type 0 where
  ok : ℕ → ParseResult
  err : ParseErr → ParseResult
