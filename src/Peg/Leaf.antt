-- ===== src/Peg/Leaf.antt =====
-- lib/endb_proc_macro/src/lib.rs, `ToTokens for PegParser`: the code generated for the parsers
-- that read the input, patterns and literals. The `regex` crate and `char::is_alphanumeric` are
-- parameters.
use endb.Prelude.{
  ℕ, ◌+◌, ◌^◌, min, String, Bool, true, false, Option, none, some, [], ◌∷◌, if◌then◌else◌, ltb,
  push,
}
pub use endb.Prelude.{◌>>=◌}
use endb.Prelude.Text.{
  Str, codes, byte_len, slice_from, slice, is_char_boundary, eq_ignore_ascii_case,
  all_ascii_punctuation,
}
use endb.Cst.Event.{Event, ParseState, ok, err, expected_literal, expected_pattern, fail}
use endb.Peg.Outcome.{Outcome, done, fault, panic}

-- `find p h` is the byte range of the leftmost match of the pattern `p` in `h`.
pub record Crates : Type 0 where
  pub find : String → Str → Option (ℕ × ℕ)
  pub is_alphanumeric : ℕ → Bool

-- the pattern of WHITESPACE in lib/endb_cst/src/sql.rs
abbrev pub whitespace : String
whitespace = "\\A(\\s+|--[^\\n\\r]*)*"

abbrev pub u32_mod : ℕ
u32_mod = 2 ^ 32

-- `u32::try_from`; its error is unwrapped everywhere
unfoldable pub to_u32 : ℕ → Option ℕ
to_u32 n = if ltb n u32_mod then some n else none

abbrev pub unwrap : Option Outcome → Outcome
unwrap none = fault panic
unwrap (some o) = o

abbrev pub push_event : Event → ParseState → ParseState
push_event e st = record st { events = push st.events e }

-- `if state.track_errors { state.errors.push(..) }`
abbrev pub push_error : Event → ParseState → ParseState
push_error e st = if st.track_errors then record st { errors = push st.errors e } else st

-- `if !range.is_empty() { state.events.push(Event::Pattern { .. }); }`
unfoldable pub push_pattern : ℕ → ℕ → ℕ → ℕ → ParseState → Option ParseState
unfolding to_u32
push_pattern pos a b new_pos st =
    if ltb a b
    then (do end ← to_u32 new_pos; some (push_event (Event.pattern pos end) st))
    else some st

-- `if !range.is_empty() { state.events.push(Event::Literal { .. }); }`
unfoldable pub push_literal : String → ℕ → ℕ → ParseState → Option ParseState
unfolding to_u32
push_literal lit pos stop st =
    if ltb pos stop
    then (do
      start ← to_u32 pos
      end ← to_u32 stop
      some (push_event (Event.literal lit start end) st))
    else some st

module _ (lib : Crates) (input : Str) where
  -- the end of a token is followed by a match of WHITESPACE
  unfoldable pub skip_whitespace : ℕ → Option ℕ
  unfolding to_u32 slice_from
  skip_whitespace new_pos = do
    rest ← slice_from input new_pos
    elim (lib.find whitespace rest) [ some (a, b) ↦ to_u32 (new_pos + b) | none ↦ to_u32 new_pos ]

  -- the match arm of a pattern that matched the range `a..b` of the rest
  unfoldable pub pattern_match : ℕ → ℕ → ℕ → ParseState → Option Outcome
  unfolding skip_whitespace push_pattern
  pattern_match pos a b st = do
    let new_pos = pos + b
    st' ← push_pattern pos a b new_pos st
    next ← skip_whitespace new_pos
    some (done (ok next) st')

  unfoldable pub run_pattern : String → ℕ → ParseState → Outcome
  unfolding pattern_match slice_from
  run_pattern p pos st = unwrap do
    rest ← slice_from input pos
    elim (lib.find p rest) [
      | some (a, b) ↦ pattern_match pos a b st
      | none ↦ some (done (err fail) (push_error (Event.error pos pos (expected_pattern p)) st))
    ]

  -- `#valid_next_char`: a literal that is not punctuation ends a word
  unfoldable pub valid_next_char : String → ℕ → Option Bool
  unfolding all_ascii_punctuation slice_from
  valid_next_char lit stop = if all_ascii_punctuation (codes lit) then some true else (do
    rest ← slice_from input stop
    elim rest [ [] ↦ some true | c ∷ _ ↦ some (if lib.is_alphanumeric c then false else true) ])

  -- the condition of the generated `if`, its `&&` from left to right
  unfoldable pub literal_hit : String → ℕ → ℕ → Option Bool
  unfolding is_char_boundary slice eq_ignore_ascii_case valid_next_char
  literal_hit lit pos stop =
      if is_char_boundary input stop
      then (do
        found ← slice input pos stop
        if eq_ignore_ascii_case found (codes lit) then valid_next_char lit stop else some false)
      else some false

  -- the first branch of the generated `if`
  unfoldable pub literal_match : String → ℕ → ℕ → ParseState → Option Outcome
  unfolding skip_whitespace push_literal
  literal_match lit pos stop st = do
    st' ← push_literal lit pos stop st
    next ← skip_whitespace stop
    some (done (ok next) st')

  unfoldable pub run_literal : String → ℕ → ParseState → Outcome
  unfolding literal_hit literal_match byte_len
  run_literal lit pos st = unwrap do
    let stop = min (pos + byte_len (codes lit)) (byte_len input)
    hit ← literal_hit lit pos stop
    if hit
        then literal_match lit pos stop st
        else some (done (err fail) (push_error (Event.error pos pos (expected_literal lit)) st))
