-- ===== src/Peg/Reported/Scan.antt =====
-- lib/endb_cst/src/lib.rs, `events_to_errors`: what the scan has found of errors in rules.
use endb.Prelude.{
  ℕ, suc, ◌≤◌, String, Bool, true, false, some, List, [], ◌∷◌, ◌++◌, ◌≡◌, refl, ◌∙◌, arith, push,
  pop, pop-some, length, length-append, map, ltb, ◌==◌, Bool-cases, inl, inr,
}
use endb.Prelude.Text.{Str}
use endb.Prelude.Slices.{At}
use endb.Cst.Event.{
  Event, open_node, close_node, ParseErrorDescriptor, expected_literal, expected_pattern, labeled,
  unexpected,
}
use endb.Cst.Errors.{
  ParseError, ErrorScan, scan_event, scan_events, start_scan, clear_below, push_at_max,
}
use endb.Cst.Errors.Laws.{scan_events-append}
use endb.Cst.Report.Groups.{error_context}
use endb.Cst.Report.Groups.Laws.{HasRule, AllHaveRule}

-- how many rules an error of the kind stands in at least
abbrev pub rules_around : ParseErrorDescriptor → ℕ
rules_around (expected_pattern _) = 2
rules_around _ = 1

abbrev error_at : ParseErrorDescriptor → ℕ → ℕ → List (String × ℕ) → ParseError
error_at d a b context = record { descriptor = d; start = a; stop = b; context = context }

error_at-HasRule :
    (d : ParseErrorDescriptor) (a b : ℕ) (context : List (String × ℕ))
    → rules_around d ≤ length context
    → HasRule (error_at d a b context)
unfolding error_context
error_at-HasRule (expected_pattern p) a b [] le = absurd (omega arith)
error_at-HasRule (expected_pattern p) a b (x ∷ []) le = absurd (omega arith)
error_at-HasRule (expected_pattern p) a b (x ∷ y ∷ ys) le =
    let (r, e, _) = pop-some y ys in (x.0, map (λ c. c.0) r, ground (arith, e))
error_at-HasRule (expected_literal l) a b [] le = absurd (omega arith)
error_at-HasRule (expected_literal l) a b (x ∷ xs) le = (x.0, map (λ c. c.0) xs, refl)
error_at-HasRule (labeled l) a b [] le = absurd (omega arith)
error_at-HasRule (labeled l) a b (x ∷ xs) le = (x.0, map (λ c. c.0) xs, refl)
error_at-HasRule unexpected a b [] le = absurd (omega arith)
error_at-HasRule unexpected a b (x ∷ xs) le = (x.0, map (λ c. c.0) xs, refl)

pop_deep :
    {n : ℕ} (context : List (String × ℕ))
    → suc n ≤ length context
    → (r : List (String × ℕ)) × (pop context ≡ some r) × (n ≤ length r)
pop_deep [] le = absurd (omega arith)
pop_deep (x ∷ xs) le = let (r, e, l) = pop-some x xs in (r, e, omega (arith, l))

module _ (input : Str) where
  abbrev pub AllAt : List ParseError → Type 0
  AllAt [] = Unit {0}
  AllAt (e ∷ es) = At input e.start × AllAt es

  abbrev pub Good : List ParseError → Type 0
  Good es = AllHaveRule es × AllAt es

  Good-push :
      (es : List ParseError) (e : ParseError)
      → Good es
      → HasRule e
      → At input e.start
      → Good (push es e)
  Good-push [] e g h at = ((h, tt), (at, tt))
  Good-push (x ∷ es) e ((h', g), (at', g')) h at =
      let (k, k') = Good-push es e (g, g') h at in ((h', k), (at', k'))

  -- after the events, the scan stands in `c` rules at least, with good errors
  pub record Scanned (c : ℕ) (es : List Event) : Type 0 where
    pub scan : ErrorScan
    pub scans : scan_events es start_scan ≡ some scan
    pub deep : c ≤ length scan.context
    pub good : Good scan.errors

  scan_events-push :
      (es : List Event) (e : Event) {s s' : ErrorScan}
      → scan_events es start_scan ≡ some s
      → scan_event e s ≡ some s'
      → scan_events (es ++ e ∷ []) start_scan ≡ some s'
  unfolding scan_events
  scan_events-push es e {s} h h' =
      rw (scan_events-append es (e ∷ []) start_scan, h) (ground (arith, h'))

  clear_below-Good : (a : ℕ) (s : ErrorScan) → Good s.errors → Good (clear_below a s).errors
  clear_below-Good a s g = elim (Bool-cases (ltb s.max_error_pos a)) [
    | inl e ↦ simp e (tt, tt)
    | inr e ↦ simp e g
  ]

  clear_below_context : (a : ℕ) (s : ErrorScan) → (clear_below a s).context ≡ s.context
  clear_below_context a s = ground arith

  push_at_max-Good :
      (e : ParseError) (s : ErrorScan)
      → Good s.errors
      → HasRule e
      → At input e.start
      → Good (push_at_max e s).errors
  push_at_max-Good e s g h at = elim (Bool-cases (e.start == s.max_error_pos)) [
    | inl q ↦ simp q (Good-push s.errors e g h at)
    | inr q ↦ simp q g
  ]

  push_at_max_context : (e : ParseError) (s : ErrorScan) → (push_at_max e s).context ≡ s.context
  push_at_max_context e s = ground arith

  pub Scanned-open :
      {c : ℕ} {es : List Event} (l : String) (p : ℕ)
      → Scanned c es
      → Scanned (suc c) (es ++ open_node l p false ∷ [])
  unfolding scan_event
  Scanned-open {es} l p k =
      let s = k.scan in
      record {
        scan = record s { context = push s.context (l, p) };
        scans = scan_events-push es (open_node l p false) k.scans refl;
        deep = omega (arith, k.deep, length-append s.context ((l, p) ∷ []));
        good = k.good;
      }

  pub Scanned-error :
      {c : ℕ} {es : List Event} (a b : ℕ) (d : ParseErrorDescriptor)
      → rules_around d ≤ c
      → At input a
      → Scanned c es
      → Scanned c (es ++ Event.error a b d ∷ [])
  unfolding scan_event
  Scanned-error {es} a b d le at k =
      let s = k.scan in
      let e = error_at d a b s.context in
      let same = push_at_max_context e (clear_below a s) ∙ clear_below_context a s in
      record {
        scan = push_at_max e (clear_below a s);
        scans = scan_events-push es (Event.error a b d) k.scans refl;
        deep = rw same k.deep;
        good =
            push_at_max-Good e (clear_below a s) (clear_below-Good a s k.good)
              (error_at-HasRule d a b s.context (omega (arith, k.deep))) at;
      }

  pub Scanned-close :
      {c : ℕ} {es : List Event} (i : ℕ) (hide : Bool)
      → Scanned (suc c) es
      → Scanned c (es ++ close_node i hide ∷ [])
  unfolding scan_event
  Scanned-close {es} i true k = record {
    scan = k.scan;
    scans = scan_events-push es (close_node i true) k.scans refl;
    deep = omega (arith, k.deep);
    good = k.good;
  }
  Scanned-close {es} i false k =
      let s = k.scan in
      let (r, e, l) = pop_deep s.context k.deep in
      record {
        scan = record s { context = r };
        scans = scan_events-push es (close_node i false) k.scans (ground (arith, e));
        deep = l;
        good = k.good;
      }
