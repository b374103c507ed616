-- ===== src/Peg/Bounds/Tokens.antt =====
-- lib/endb_proc_macro/src/lib.rs: the ranges of the tokens that patterns and literals push.
use endb.Prelude.{
  ℕ, ◌+◌, ◌≤◌, min, String, Bool, true, false, Option, none, some, List, [], ◌∷◌, ◌≡◌, refl, subst,
  sym, arith, push, inl, inr, Option-cases, Bool-cases, ltb,
}
use mathlib.Core.Bool.{false≢true}
use endb.Prelude.Text.{Str, codes, byte_len, is_char_boundary}
use endb.Prelude.Slices.{At, slice_from-add, slice_from-le, is_char_boundary→At}
use endb.Cst.Event.{Event, ParseState, ParseResult, ok, err}
use endb.Peg.Leaf.{
  Crates, whitespace, push_error, push_pattern, push_literal, skip_whitespace, literal_hit,
  run_pattern, run_literal, to_u32,
}
use endb.Peg.Machine.{truncate_errors}
use endb.Peg.Ensures.{
  Ensures, holds, Ensures-unwrap, Returns-any, Returns, panics, value, Returns-bind,
}
use endb.Peg.Progress.{RegexLaws}
use endb.Peg.WellFormed.{Analysis}

-- a range of the input between two character boundaries, where the event is a token
abbrev pub InBounds : Str → Event → Type 0
InBounds input (Event.literal l x y) = (x ≤ y) × At input x × At input y
InBounds input (Event.pattern x y) = (x ≤ y) × At input x × At input y
InBounds input _ = Unit {0}

abbrev pub Within : Str → List Event → Type 0
Within input [] = Unit {0}
Within input (e ∷ es) = InBounds input e × Within input es

-- a success ends on a boundary
abbrev pub Lands : Str → ParseResult → Type 0
Lands input (ok pos) = At input pos
Lands input (err e) = Unit {0}

pub to_u32_same : (n : ℕ) {m : ℕ} → to_u32 n ≡ some m → m ≡ n
unfolding to_u32
to_u32_same n e = ground (arith, e)

module _ (input : Str) where
  pub Within-push :
      (es : List Event) (e : Event) → Within input es → InBounds input e → Within input (push es e)
  Within-push [] e w b = (b, tt)
  Within-push (x ∷ es) e (b', w) b = (b', Within-push es e w b)

  pub push_error-Within :
      (e : Event) (st : ParseState) → Within input st.events → Within input (push_error e st).events
  push_error-Within e st w = elim (Bool-cases st.track_errors) [
    | inl h ↦ simp h w
    | inr h ↦ simp h w
  ]

  pub truncate_errors-Within :
      (n : ℕ) (st : ParseState)
      → Within input st.events
      → Within input (truncate_errors n st).events
  truncate_errors-Within n st w = elim (Bool-cases st.track_errors) [
    | inl h ↦ simp h w
    | inr h ↦ simp h w
  ]

  moved : (n : ℕ) → At input n → Returns (At input) (to_u32 n)
  moved n at = elim (Option-cases (to_u32 n)) [
    | inl e ↦ rw e panics
    | inr (m, e) ↦ rw e (value (subst (At input) (sym (to_u32_same n e)) at))
  ]

  push_pattern-Within :
      (pos a b new_pos : ℕ) (st : ParseState)
      → pos ≤ new_pos
      → At input pos
      → At input new_pos
      → Within input st.events
      → Returns (λ st'. Within input st'.events) (push_pattern pos a b new_pos st)
  unfolding push_pattern
  push_pattern-Within pos a b new_pos st le at at' w = elim (Bool-cases (ltb a b)) [
    | inr e ↦ rw e (value w)
    | inl e ↦ rw e (
        Returns-bind (Returns-any (to_u32 new_pos)) λ stop h. value (
          Within-push st.events _ w (
            subst (λ n. (pos ≤ n) × At input pos × At input n) (sym (to_u32_same new_pos h))
              (le, at, at'))))
  ]

  push_literal-Within :
      (lit : String) (pos stop : ℕ) (st : ParseState)
      → pos ≤ stop
      → At input pos
      → At input stop
      → Within input st.events
      → Returns (λ st'. Within input st'.events) (push_literal lit pos stop st)
  unfolding push_literal
  push_literal-Within lit pos stop st le at at' w = elim (Bool-cases (ltb pos stop)) [
    | inr e ↦ rw e (value w)
    | inl e ↦ rw e (
        Returns-bind (Returns-any (to_u32 pos)) λ start h.
          Returns-bind (Returns-any (to_u32 stop)) λ stop' h'. value (
            Within-push st.events _ w (
              subst (λ n. (start ≤ n) × At input start × At input n) (sym (to_u32_same stop h'))
                (subst (λ n. (n ≤ stop) × At input n × At input stop) (sym (to_u32_same pos h))
                  (le, at, at')))))
  ]

  module _ (lib : Crates) (a : Analysis) (laws : RegexLaws lib a) where
    skip_whitespace-At :
        (pos : ℕ) → At input pos → Returns (At input) (skip_whitespace lib input pos)
    unfolding skip_whitespace
    skip_whitespace-At pos (t, e) = elim (Option-cases (lib.find whitespace t)) [
      | inl n ↦ rw (e, n) (moved pos (t, e))
      | inr ((x, y), f) ↦
          let (u, e') = (laws.find_range whitespace t f).1 in
          rw (e, f) (moved (pos + y) (u, slice_from-add input pos y e e'))
    ]

    pub run_pattern-Within :
        (p : String) (pos : ℕ) (st : ParseState)
        → At input pos
        → Within input st.events
        → Ensures
            (λ r st'. Lands input r × Within input st'.events)
            (run_pattern lib input p pos st)
    unfolding run_pattern
    run_pattern-Within p pos st (t, e) w = elim (Option-cases (lib.find p t)) [
      | inl n ↦ rw (e, n) (holds (tt, push_error-Within _ st w))
      | inr ((x, y), f) ↦
          let (u, e') = (laws.find_range p t f).1 in
          let at : At input (pos + y) = (u, slice_from-add input pos y e e') in
          rw (e, f)
            (Ensures-unwrap _ (push_pattern-Within pos x y (pos + y) st (omega arith) (t, e) at w)
              λ st' w'.
                Ensures-unwrap _ (skip_whitespace-At (pos + y) at) λ next at'. holds (at', w'))
    ]

    always : {P : Type 0} (m : Option Bool) → P → Returns (λ hit. hit ≡ true → P) m
    always none p = panics
    always (some hit) p = value λ _. p

    literal_hit-At :
        (lit : String) (pos stop : ℕ)
        → Returns (λ hit. hit ≡ true → At input stop) (literal_hit lib input lit pos stop)
    unfolding literal_hit
    literal_hit-At lit pos stop = elim (Bool-cases (is_char_boundary input stop)) [
      | inl e ↦ always (literal_hit lib input lit pos stop) (is_char_boundary→At input stop e)
      | inr e ↦ rw e (value λ h. absurd (false≢true h))
    ]

    pub run_literal-Within :
        (lit : String) (pos : ℕ) (st : ParseState)
        → At input pos
        → Within input st.events
        → Ensures
            (λ r st'. Lands input r × Within input st'.events)
            (run_literal lib input lit pos st)
    unfolding run_literal
    run_literal-Within lit pos st (t, e) w =
        let stop = min (pos + byte_len (codes lit)) (byte_len input) in
        let le : pos ≤ stop = omega (arith, slice_from-le input pos e) in
        Ensures-unwrap _ (literal_hit-At lit pos stop) (elim [
          | true ↦ λ at.
              Ensures-unwrap _ (push_literal-Within lit pos stop st le (t, e) (at refl) w) λ st' w'.
                Ensures-unwrap _ (skip_whitespace-At stop (at refl)) λ next at'. holds (at', w')
          | false ↦ λ _. holds (tt, push_error-Within _ st w)
        ])
