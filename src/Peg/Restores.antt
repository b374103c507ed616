-- ===== src/Peg/Restores.antt =====
-- lib/endb_proc_macro/src/lib.rs: which parsers take their events back when they fail.
use endb.Prelude.{
  ℕ, zero, suc, Bool, true, false, ◌≡◌, ◌∙◌, refl, ap, arith, length, take, take-append, String,
  inl, inr, Option-cases, min, ◌+◌,
}
use endb.Prelude.Text.{Str, codes, byte_len, slice_from}
use endb.Cst.Event.{Event, ParseState, ParseErr, ParseResult, ok, err, fail}
use endb.Peg.Syntax.{
  PegParser, PegParsers, end, ◌▹◌, seq, ord, pattern, literal, non_terminal, neg, look, cut, star,
  plus, opt, Grammar,
}
use endb.Peg.Outcome.{done}
use endb.Peg.Leaf.{
  Crates, push_error, run_pattern, run_literal, push_pattern, push_literal, skip_whitespace,
  literal_hit,
}
use endb.Peg.Machine.{run, run_seq, run_ord, end_neg, truncate_events, truncate_errors}
use endb.Peg.Ensures.{
  Ensures, holds, faulted, Ensures-follow, Ensures-done, Ensures-unwrap, Returns-any,
}
use endb.Peg.Grows.{Grows, Grows-refl, Grows-trans, Grows-truncate, run-Ensures}

-- not a rule or a repetition, nor a cut around one
abbrev pub restores : PegParser → Bool
restores (non_terminal id) = false
restores (star p) = false
restores (cut p) = restores p
restores _ = true

-- if the result is a failure, the events are those of `st`
abbrev Restored : ParseState → ParseResult → ParseState → Type 0
Restored st (ok pos) st' = Unit {0}
Restored st (err e) st' = st'.events ≡ st.events

truncated : {st st' : ParseState} → Grows st st' → take (length st.events) st'.events ≡ st.events
truncated {st} g = ap (take (length st.events)) g.events_eq ∙ take-append st.events g.new_events

push_error_events : (e : Event) (st : ParseState) → (push_error e st).events ≡ st.events
push_error_events e st = ground arith

truncate_errors_events : (n : ℕ) (st : ParseState) → (truncate_errors n st).events ≡ st.events
truncate_errors_events n st = ground arith

end_neg-Restored :
    (pos : ℕ) {st st' : ParseState} (r : ParseResult)
    → Grows st st'
    → Ensures (Restored st) (end_neg (length st.events) (length st.errors) pos r st')
unfolding end_neg
end_neg-Restored pos (ok new_pos) g =
    holds (push_error_events _ _ ∙ truncate_errors_events _ _ ∙ truncated g)
end_neg-Restored pos (err e) g = holds tt

run_pattern-Restored :
    (lib : Crates) (input : Str) (p : String) (pos : ℕ) (st : ParseState)
    → Ensures (Restored st) (run_pattern lib input p pos st)
unfolding run_pattern
run_pattern-Restored lib input p pos st =
    Ensures-unwrap _ (Returns-any (slice_from input pos)) λ rest _.
      elim (Option-cases (lib.find p rest)) [
        | inl e ↦ rw e (holds (push_error_events _ st))
        | inr ((a, b), e) ↦ rw e (
            Ensures-unwrap _ (Returns-any (push_pattern pos a b (pos + b) st)) λ st' _.
              Ensures-unwrap _ (Returns-any (skip_whitespace lib input (pos + b)))
                λ next _. holds tt)
      ]

run_literal-Restored :
    (lib : Crates) (input : Str) (lit : String) (pos : ℕ) (st : ParseState)
    → Ensures (Restored st) (run_literal lib input lit pos st)
unfolding run_literal
run_literal-Restored lib input lit pos st =
    let stop = min (pos + byte_len (codes lit)) (byte_len input) in
    Ensures-unwrap _ (Returns-any (literal_hit lib input lit pos stop)) (elim [
      | true ↦ λ _. Ensures-unwrap _ (Returns-any (push_literal lit pos stop st)) λ st' _.
          Ensures-unwrap _ (Returns-any (skip_whitespace lib input stop)) λ next _. holds tt
      | false ↦ λ _. holds (push_error_events _ st)
    ])

module _ (lib : Crates) (grammar : Grammar) (input : Str) where
  run_seq-Restored :
      (f : ℕ) (ps : PegParsers) (pos : ℕ) (st₀ st : ParseState)
      → Grows st₀ st
      → Ensures (Restored st₀) (run_seq lib grammar input f (length st₀.events) ps pos st)
  unfolding run_seq
  run_seq-Restored zero ps pos st₀ st g = faulted
  run_seq-Restored (suc f) end pos st₀ st g = holds tt
  run_seq-Restored (suc f) (p ▹ ps) pos st₀ st g =
      Ensures-follow (run-Ensures lib grammar input f p pos st) (elim [
        | ok new_pos ↦ λ st' g'. run_seq-Restored f ps new_pos st₀ st' (Grows-trans g g')
        | err e ↦ λ st' g'. holds (truncated (Grows-trans g g'))
      ])

  run_ord-Restored :
      (f : ℕ) (ps : PegParsers) (pos : ℕ) (st₀ st : ParseState)
      → Grows st₀ st
      → st.events ≡ st₀.events
      → Ensures (Restored st₀) (run_ord lib grammar input f (length st₀.events) ps pos st)
  unfolding run_ord
  run_ord-Restored zero ps pos st₀ st g e = faulted
  run_ord-Restored (suc f) end pos st₀ st g e = holds e
  run_ord-Restored (suc f) (p ▹ ps) pos st₀ st g e =
      Ensures-follow (run-Ensures lib grammar input f p pos st) (elim [
        | ok new_pos ↦ λ st' g'. holds tt
        | err ParseErr.error ↦ λ st' g'. holds (truncated (Grows-trans g g'))
        | err fail ↦ λ st' g'.
            run_ord-Restored f ps pos st₀ (truncate_events (length st₀.events) st')
              (Grows-truncate (Grows-trans g g')) (truncated (Grows-trans g g'))
      ])

  run-Restored :
      (f : ℕ) (p : PegParser) (pos : ℕ) (st : ParseState)
      → restores p ≡ true
      → Ensures (Restored st) (run lib grammar input f p pos st)
  unfolding run
  run-Restored zero p pos st h = faulted
  run-Restored (suc f) (pattern p) pos st h = run_pattern-Restored lib input p pos st
  run-Restored (suc f) (literal l) pos st h = run_literal-Restored lib input l pos st
  run-Restored (suc f) (seq ps) pos st h = run_seq-Restored f ps pos st st (Grows-refl st)
  run-Restored (suc f) (ord ps) pos st h = run_ord-Restored f ps pos st st (Grows-refl st) refl
  run-Restored (suc f) (star p) pos st h = cc
  run-Restored (suc f) (neg p) pos st h =
      Ensures-follow (run-Ensures lib grammar input f p pos st) λ r st' g. end_neg-Restored pos r g
  run-Restored (suc f) (cut p) pos st h =
      Ensures-follow (run-Restored f p pos st h)
        (elim [ ok new_pos ↦ λ st' e. holds tt | err x ↦ λ st' e. holds e ])
  run-Restored (suc f) (non_terminal id) pos st h = cc
  run-Restored (suc f) (look p) pos st h = run-Restored f (neg (neg p)) pos st refl
  run-Restored (suc f) (plus p) pos st h = run-Restored f (seq (p ▹ star p ▹ end)) pos st refl
  run-Restored (suc f) (opt p) pos st h = run-Restored f (ord (p ▹ literal "" ▹ end)) pos st refl

  -- A parser that fails, with or without a cut, leaves the events as it found them, unless it is a
  -- rule or a repetition, or a cut around one.
  pub failure_restores :
      (f : ℕ) (p : PegParser) (pos : ℕ) (st st' : ParseState) (e : ParseErr)
      → restores p ≡ true
      → run lib grammar input f p pos st ≡ done (err e) st'
      → st'.events ≡ st.events
  failure_restores f p pos st st' e h q = Ensures-done (run-Restored f p pos st h) q
