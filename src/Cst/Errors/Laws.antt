-- ===== src/Cst/Errors/Laws.antt =====
-- lib/endb_cst/src/lib.rs, `events_to_errors` on what a parse records.
use endb.Prelude.{
  ℕ, suc, ◌+◌, String, true, false, Option, none, some, List, [], ◌∷◌, ◌++◌, ◌≡◌, refl, arith, push,
  pop, pop-some, length, length-append,
}
use endb.Cst.Event.{Event, open_node, close_node}
use endb.Cst.Errors.{
  ParseError, ErrorScan, scan_event, scan_events, start_scan, events_to_errors, clear_below,
  push_at_max,
}
use endb.Cst.Forest.{Trace}

-- the hidden closes of a recorded parse
abbrev pub hidden_closes : List Event → ℕ
hidden_closes [] = 0
hidden_closes (close_node i true ∷ es) = suc (hidden_closes es)
hidden_closes (_ ∷ es) = hidden_closes es

hidden_closes-append :
    (xs ys : List Event) → hidden_closes (xs ++ ys) ≡ hidden_closes xs + hidden_closes ys
hidden_closes-append [] ys = omega arith
hidden_closes-append (close_node i true ∷ xs) ys = omega (arith, hidden_closes-append xs ys)
hidden_closes-append (close_node i false ∷ xs) ys = hidden_closes-append xs ys
hidden_closes-append (open_node l p h ∷ xs) ys = hidden_closes-append xs ys
hidden_closes-append (Event.literal l a b ∷ xs) ys = hidden_closes-append xs ys
hidden_closes-append (Event.pattern a b ∷ xs) ys = hidden_closes-append xs ys
hidden_closes-append (Event.error a b d ∷ xs) ys = hidden_closes-append xs ys

pub scan_events-append :
    (xs ys : List Event) (s : ErrorScan)
    → scan_events (xs ++ ys) s
      ≡ elim (scan_events xs s) [ none ↦ none | some s' ↦ scan_events ys s' ]
unfolding scan_events
scan_events-append [] ys s = refl
scan_events-append (x ∷ xs) ys s =
    elim (scan_event x s)
      as (λ o.
        (elim o as (λ _. Option ErrorScan) [ none ↦ none | some s' ↦ scan_events (xs ++ ys) s' ])
        ≡ (elim (elim o as (λ _. Option ErrorScan) [ none ↦ none | some s' ↦ scan_events xs s' ])
            as (λ _. Option ErrorScan) [ none ↦ none | some s' ↦ scan_events ys s' ])) [
              | none ↦ refl
              | some s' ↦ scan_events-append xs ys s'
            ]

-- The context grows by one entry for each hidden close, and by nothing else.
abbrev Leaks : List Event → ErrorScan → Type 0
Leaks es s =
    (s' : ErrorScan) × (scan_events es s ≡ some s')
    × (length s'.context ≡ length s.context + hidden_closes es)

pop_push :
    (c : List (String × ℕ)) (n : ℕ)
    → length c ≡ suc n
    → (r : List (String × ℕ)) × (pop c ≡ some r) × (length r ≡ n)
pop_push [] n h = absurd (omega arith)
pop_push (x ∷ xs) n h = let (r, e, l) = pop-some x xs in (r, e, omega arith)

scan_close :
    (i : ℕ) (rest : List Event) (s : ErrorScan) {c : List (String × ℕ)} {s' : ErrorScan}
    → pop s.context ≡ some c
    → scan_events rest (record s { context = c }) ≡ some s'
    → scan_events (close_node i false ∷ rest) s ≡ some s'
unfolding scan_events
scan_close i rest s e e' = ground arith

Trace-Leaks : {es : List Event} → Trace es → (s : ErrorScan) → Leaks es s
unfolding scan_events
Trace-Leaks Trace.nil s = (s, refl, omega arith)
Trace-Leaks (Trace.failure {a} {b} {d} t) s =
    let error : ParseError = record { descriptor = d; start = a; stop = b; context = s.context } in
    let (s', e, l) = Trace-Leaks t (push_at_max error (clear_below a s)) in
    (s', e, ground (arith, l))
Trace-Leaks (Trace.node {l} {p} i true {body} {rest} tb t) s =
    let inner = record s { context = push s.context (l, p) } in
    let (s₁, e₁, l₁) = Trace-Leaks tb inner in
    let (s₂, e₂, l₂) = Trace-Leaks t s₁ in
    (
      s₂,
      rw (scan_events-append body (close_node i true ∷ rest) inner, e₁) e₂,
      omega (
        arith,
        l₁,
        l₂,
        length-append s.context ((l, p) ∷ []),
        hidden_closes-append body (close_node i true ∷ rest),
      ),
    )
Trace-Leaks (Trace.node {l} {p} i false {body} {rest} tb t) s =
    let inner = record s { context = push s.context (l, p) } in
    let (s₁, e₁, l₁) = Trace-Leaks tb inner in
    let (c, ec, lc) =
      pop_push s₁.context (length s.context + hidden_closes body)
        (omega (arith, l₁, length-append s.context ((l, p) ∷ []))) in
    let (s₂, e₂, l₂) = Trace-Leaks t (record s₁ { context = c }) in
    (
      s₂,
      rw (scan_events-append body (close_node i false ∷ rest) inner, e₁)
          (scan_close i rest s₁ ec e₂),
      omega (arith, l₂, lc, hidden_closes-append body (close_node i false ∷ rest)),
    )

-- The errors that a parse records never make `events_to_errors` panic.
pub Trace-no_panic :
    {es : List Event} → Trace es → (errors : List ParseError) × (events_to_errors es ≡ some errors)
unfolding events_to_errors
Trace-no_panic t = let (s, e, l) = Trace-Leaks t start_scan in (s.errors, rw (e, events_to_errors))

-- Over what a parse records the scan leaves in the context one entry for each hidden close, the
-- labels of rules that are closed: only a `Close` that is not hidden is popped, while every `Open`
-- was pushed.
pub scan_events_leaks :
    {es : List Event} (s : ErrorScan)
    → Trace es
    → (s' : ErrorScan) × (scan_events es s ≡ some s')
      × (length s'.context ≡ length s.context + hidden_closes es)
scan_events_leaks s t = Trace-Leaks t s
