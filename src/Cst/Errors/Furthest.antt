-- ===== src/Cst/Errors/Furthest.antt =====
-- lib/endb_cst/src/lib.rs, `events_to_errors`: which errors it keeps.
use Prim.Native.Nat.{max}
use endb.Prelude.{
  ℕ, ◌≤◌, String, Bool, true, false, some, List, [], ◌∷◌, ◌++◌, ◌≡◌, ◌∙◌, refl, sym, ap, subst,
  arith, inl, inr, if◌then◌else◌, ◌==◌, map, append_assoc, append-nil, Bool-cases, Option-cases,
  pop,
}
use mathlib.Core.List.{map-append}
use mathlib.Core.Option.{some-injective}
use endb.Cst.Event.{Event, open_node, close_node, ParseErrorDescriptor}
use endb.Cst.Errors.{
  ParseError, ErrorScan, scan_events, start_scan, events_to_errors, clear_below, push_at_max,
}

-- an error without its context
abbrev pub Failure : Type 0
Failure = ℕ × ℕ × ParseErrorDescriptor

abbrev pub failure_of : ParseError → Failure
failure_of e = (e.start, e.stop, e.descriptor)

-- the largest start of an error, 0 if there is none
abbrev pub furthest : List Event → ℕ
furthest [] = 0
furthest (Event.error a b d ∷ es) = max a (furthest es)
furthest (_ ∷ es) = furthest es

-- the errors that start at `m`
abbrev pub failures_at : ℕ → List Event → List Failure
failures_at m [] = []
failures_at m (Event.error a b d ∷ es) =
    let rest = failures_at m es in if a == m then (a, b, d) ∷ rest else rest
failures_at m (_ ∷ es) = failures_at m es

abbrev failures : ErrorScan → List Failure
failures s = map failure_of s.errors

-- what a scan of `es` from `s` ends with
record Keeps (es : List Event) (s s' : ErrorScan) : Type 0 where
  far : s'.max_error_pos ≡ max s.max_error_pos (furthest es)
  kept :
      failures s'
      ≡ (if s.max_error_pos == max s.max_error_pos (furthest es) then failures s else [])
        ++ failures_at (max s.max_error_pos (furthest es)) es

-- the state after an error event
abbrev after_error : ParseError → ErrorScan → ErrorScan
after_error e s = push_at_max e (clear_below e.start s)

after_error-max :
    (e : ParseError) (s : ErrorScan) → (after_error e s).max_error_pos ≡ max s.max_error_pos e.start
after_error-max e s = ground arith

after_error-failures :
    (e : ParseError) (s : ErrorScan) (m : ℕ)
    → max s.max_error_pos e.start ≤ m
    → (if (after_error e s).max_error_pos == m then failures (after_error e s) else [])
      ≡ (if s.max_error_pos == m then failures s else [])
        ++ (if e.start == m then failure_of e ∷ [] else [])
after_error-failures e s m h = ground (
  arith,
  append-nil (failures s),
  append-nil {A = Failure} [],
  map-append failure_of s.errors (e ∷ []),
)

scan_close :
    (i : ℕ) (es : List Event) (s : ErrorScan) {s' : ErrorScan}
    → scan_events (close_node i false ∷ es) s ≡ some s'
    → (c : List (String × ℕ)) × (scan_events es (record s { context = c }) ≡ some s')
unfolding scan_events
scan_close i es s h = elim (Option-cases (pop s.context)) [
  | inl e ↦ ground (arith, e)
  | inr (c, e) ↦ (c, ground (arith, e))
]

failures_at_cons :
    (m a b : ℕ) (d : ParseErrorDescriptor) (fs : List Failure)
    → (if a == m then (a, b, d) ∷ [] else []) ++ fs ≡ (if a == m then (a, b, d) ∷ fs else fs)
failures_at_cons m a b d fs = elim (Bool-cases (a == m)) [ inl e ↦ rw e | inr e ↦ rw e ]

scan_events-Keeps :
    (es : List Event) (s s' : ErrorScan) → scan_events es s ≡ some s' → Keeps es s s'
unfolding scan_events
scan_events-Keeps [] s s' h =
    subst (λ t. Keeps [] s t) (some-injective _ _ h)
      (record { far = omega arith; kept = ground (arith, append-nil (failures s)) })
scan_events-Keeps (Event.error a b d ∷ es) s s' h =
    let e : ParseError = record { descriptor = d; start = a; stop = b; context = s.context } in
    let k = scan_events-Keeps es (after_error e s) s' h in
    let m = max s.max_error_pos (max a (furthest es)) in
    let same : max (after_error e s).max_error_pos (furthest es) ≡ m =
      omega (arith, after_error-max e s) in
    let kept' : failures s'
        ≡ (if (after_error e s).max_error_pos == m then failures (after_error e s) else [])
          ++ failures_at m es =
      subst
        (λ n.
          failures s'
          ≡ (if (after_error e s).max_error_pos == n then failures (after_error e s) else [])
            ++ failures_at n es)
        same k.kept in
    let before : List Failure = if s.max_error_pos == m then failures s else [] in
    record {
      far = k.far ∙ same;
      kept =
          kept'
          ∙ ap (λ l. l ++ failures_at m es) (after_error-failures e s m (omega arith))
          ∙ append_assoc before (if a == m then (a, b, d) ∷ [] else []) (failures_at m es)
          ∙ ap (λ l. before ++ l) (failures_at_cons m a b d (failures_at m es));
    }
scan_events-Keeps (open_node l p false ∷ es) s s' h =
    let k = scan_events-Keeps es _ s' h in record { far = k.far; kept = k.kept }
scan_events-Keeps (open_node l p true ∷ es) s s' h =
    let k = scan_events-Keeps es s s' h in record { far = k.far; kept = k.kept }
scan_events-Keeps (close_node i false ∷ es) s s' h =
    let (c, h') = scan_close i es s h in
    let k = scan_events-Keeps es (record s { context = c }) s' h' in
    record { far = k.far; kept = k.kept }
scan_events-Keeps (close_node i true ∷ es) s s' h =
    let k = scan_events-Keeps es s s' h in record { far = k.far; kept = k.kept }
scan_events-Keeps (Event.literal l a b ∷ es) s s' h =
    let k = scan_events-Keeps es s s' h in record { far = k.far; kept = k.kept }
scan_events-Keeps (Event.pattern a b ∷ es) s s' h =
    let k = scan_events-Keeps es s s' h in record { far = k.far; kept = k.kept }

no_failures : (b : Bool) (fs : List Failure) → (if b then [] else []) ++ fs ≡ fs
no_failures true fs = refl
no_failures false fs = refl

-- What `events_to_errors` returns are the errors among the events that start at the furthest
-- position, every one of them and in the order of the events.
pub events_to_errors-furthest :
    (es : List Event) (errors : List ParseError)
    → events_to_errors es ≡ some errors
    → map failure_of errors ≡ failures_at (furthest es) es
unfolding events_to_errors
events_to_errors-furthest es errors h = elim (Option-cases (scan_events es start_scan)) [
  | inl e ↦ ground (arith, e)
  | inr (s', e) ↦
      let k = scan_events-Keeps es start_scan s' e in
      let m : max 0 (furthest es) ≡ furthest es = omega arith in
      let same : s'.errors ≡ errors = ground (arith, e) in
      ap (map failure_of) (sym same) ∙ k.kept ∙ no_failures _ _ ∙ ap (λ n. failures_at n es) m
]
