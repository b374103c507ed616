-- ===== src/Peg/Grows/Steps.antt =====
-- One step of a generated parser: what it appends to the events and to the errors.
use endb.Prelude.{
  ℕ, ◌+◌, String, true, false, List, [], ◌∷◌, ◌++◌, ◌≡◌, ◌∙◌, sym, ap, subst, refl, length, take,
  Option-cases, Bool-cases, take-append, append_assoc, append-nil, length-append, inl, inr, ltb,
  min,
}
use endb.Prelude.Text.{Str, codes, byte_len, slice_from}
use endb.Cst.Event.{
  Event, ParseState, ParseResult, ok, err, ParseErrorDescriptor, expected_literal, expected_pattern,
}
use endb.Cst.Forest.{Forest, Forest-append, Trace, Trace-append}
use endb.Peg.Leaf.{
  Crates, push_error, run_pattern, run_literal, to_u32, push_pattern, push_literal, literal_hit,
  skip_whitespace,
}
use endb.Peg.Machine.{truncate_events, truncate_errors, end_neg}
use endb.Peg.Ensures.{Ensures, holds, Ensures-unwrap, Returns, Returns-any, Returns-bind, value}

-- `st'` is `st` with a forest appended to its events, and a trace to its errors if these are
-- tracked.
pub record Grows (st st' : ParseState) : Type 0 where
  pub new_events : List Event
  pub new_errors : List Event
  pub events_eq : st'.events ≡ st.events ++ new_events
  pub errors_eq : st'.errors ≡ st.errors ++ new_errors
  pub forest : Forest (length st.events) new_events
  pub trace : Trace new_errors
  pub tracking : st'.track_errors ≡ st.track_errors
  pub untracked : st.track_errors ≡ false → new_errors ≡ []

pub Grows-refl : (st : ParseState) → Grows st st
Grows-refl st = record {
  new_events = [];
  new_errors = [];
  events_eq = sym (append-nil st.events);
  errors_eq = sym (append-nil st.errors);
  forest = Forest.nil;
  trace = Trace.nil;
  tracking = refl;
  untracked = λ _. refl;
}

pub Grows-trans : {st st₁ st₂ : ParseState} → Grows st st₁ → Grows st₁ st₂ → Grows st st₂
Grows-trans {st} g h = record {
  new_events = g.new_events ++ h.new_events;
  new_errors = g.new_errors ++ h.new_errors;
  events_eq =
      h.events_eq
      ∙ ap (λ l. l ++ h.new_events) g.events_eq
      ∙ append_assoc st.events g.new_events h.new_events;
  errors_eq =
      h.errors_eq
      ∙ ap (λ l. l ++ h.new_errors) g.errors_eq
      ∙ append_assoc st.errors g.new_errors h.new_errors;
  forest = Forest-append h.new_events g.forest (
      subst (λ k. Forest k h.new_events)
        (ap length g.events_eq ∙ length-append st.events g.new_events) h.forest);
  trace = Trace-append g.trace h.trace;
  tracking = h.tracking ∙ g.tracking;
  untracked = λ e. rw (g.untracked e, h.untracked (g.tracking ∙ e));
}

-- `truncate` drops the forest that was appended.
pub Grows-truncate :
    {st st' : ParseState} → Grows st st' → Grows st (truncate_events (length st.events) st')
Grows-truncate {st} g = record {
  new_events = [];
  new_errors = g.new_errors;
  events_eq =
      ap (take (length st.events)) g.events_eq
      ∙ take-append st.events g.new_events
      ∙ sym (append-nil st.events);
  errors_eq = g.errors_eq;
  forest = Forest.nil;
  trace = g.trace;
  tracking = g.tracking;
  untracked = g.untracked;
}

pub push_error-Grows :
    (st : ParseState) (a b : ℕ) (d : ParseErrorDescriptor)
    → Grows st (push_error (Event.error a b d) st)
push_error-Grows st a b d = elim (Bool-cases st.track_errors) [
  | inl e ↦ simp e (record {
    new_events = [];
    new_errors = Event.error a b d ∷ [];
    events_eq = sym (append-nil st.events);
    errors_eq = refl;
    forest = Forest.nil;
    trace = Trace.failure Trace.nil;
    tracking = sym e;
    untracked = λ e'. cc;
  })
  | inr e ↦ simp e (Grows-refl st)
]

pub truncate_errors-Grows :
    {st st' : ParseState} → Grows st st' → Grows st (truncate_errors (length st.errors) st')
truncate_errors-Grows {st} {st'} g = elim (Bool-cases st'.track_errors) [
  | inl e ↦ simp e (record {
    new_events = g.new_events;
    new_errors = [];
    events_eq = g.events_eq;
    errors_eq =
        ap (take (length st.errors)) g.errors_eq
        ∙ take-append st.errors g.new_errors
        ∙ sym (append-nil st.errors);
    forest = g.forest;
    trace = Trace.nil;
    tracking = sym e ∙ g.tracking;
    untracked = λ _. refl;
  })
  | inr e ↦ simp e g
]

pub end_neg-Grows :
    {st st' : ParseState} (pos : ℕ) (r : ParseResult)
    → Grows st st'
    → Ensures (λ _. Grows st) (end_neg (length st.events) (length st.errors) pos r st')
unfolding end_neg
end_neg-Grows pos (ok new_pos) g =
    holds (Grows-trans (truncate_errors-Grows (Grows-truncate g)) (push_error-Grows _ _ _ _))
end_neg-Grows pos (err e) g = holds (truncate_errors-Grows (Grows-truncate g))

push_pattern-Grows :
    (pos a b new_pos : ℕ) (st : ParseState) → Returns (Grows st) (push_pattern pos a b new_pos st)
unfolding push_pattern
push_pattern-Grows pos a b new_pos st = elim (Bool-cases (ltb a b)) [
  | inl e ↦ rw e (
      Returns-bind (Returns-any (to_u32 new_pos)) λ end _. value (record {
        new_events = Event.pattern pos end ∷ [];
        new_errors = [];
        events_eq = refl;
        errors_eq = sym (append-nil st.errors);
        forest = Forest.regex_token Forest.nil;
        trace = Trace.nil;
        tracking = refl;
        untracked = λ _. refl;
      }))
  | inr e ↦ rw e (value (Grows-refl st))
]

push_literal-Grows :
    (lit : String) (pos stop : ℕ) (st : ParseState)
    → Returns (Grows st) (push_literal lit pos stop st)
unfolding push_literal
push_literal-Grows lit pos stop st = elim (Bool-cases (ltb pos stop)) [
  | inl e ↦ rw e (
      Returns-bind (Returns-any (to_u32 pos)) λ start _.
        Returns-bind (Returns-any (to_u32 stop)) λ end _. value (record {
          new_events = Event.literal lit start end ∷ [];
          new_errors = [];
          events_eq = refl;
          errors_eq = sym (append-nil st.errors);
          forest = Forest.token Forest.nil;
          trace = Trace.nil;
          tracking = refl;
          untracked = λ _. refl;
        }))
  | inr e ↦ rw e (value (Grows-refl st))
]

module _ (lib : Crates) (input : Str) where
  pub run_pattern-Grows :
      (p : String) (pos : ℕ) (st : ParseState)
      → Ensures (λ _. Grows st) (run_pattern lib input p pos st)
  unfolding run_pattern
  run_pattern-Grows p pos st = Ensures-unwrap _ (Returns-any (slice_from input pos)) λ rest _.
      elim (Option-cases (lib.find p rest)) [
        | inl e ↦ rw e (holds (push_error-Grows st pos pos (expected_pattern p)))
        | inr ((a, b), e) ↦ rw e (
            Ensures-unwrap _ (push_pattern-Grows pos a b (pos + b) st) λ st' g.
              Ensures-unwrap _ (Returns-any (skip_whitespace lib input (pos + b)))
                λ next _. holds g)
      ]

  pub run_literal-Grows :
      (lit : String) (pos : ℕ) (st : ParseState)
      → Ensures (λ _. Grows st) (run_literal lib input lit pos st)
  unfolding run_literal
  run_literal-Grows lit pos st =
      let stop = min (pos + byte_len (codes lit)) (byte_len input) in
      Ensures-unwrap _ (Returns-any (literal_hit lib input lit pos stop)) (elim [
        | true ↦ λ _. Ensures-unwrap _ (push_literal-Grows lit pos stop st) λ st' g.
            Ensures-unwrap _ (Returns-any (skip_whitespace lib input stop)) λ next _. holds g
        | false ↦ λ _. holds (push_error-Grows st pos pos (expected_literal lit))
      ])
