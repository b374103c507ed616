-- ===== src/Peg/Progress/Tokens.antt =====
-- lib/endb_proc_macro/src/lib.rs: when patterns and literals return, and how far they come.
use endb.Prelude.{
  ℕ, ◌+◌, ◌≤◌, ◌<◌, min, String, true, false, not, some, [], ◌∷◌, ◌≡◌, refl, ◌∙◌, ap, inl, inr,
  arith, Bool-cases, Option-cases, ltb, if◌then◌else◌,
}
use mathlib.Core.Bool.{false≢true}
use endb.Prelude.Text.{
  Str, codes, byte_len, slice_from, slice, is_char_boundary, eq_ignore_ascii_case,
  all_ascii_punctuation,
}
use endb.Prelude.Slices.{
  At, slice_from-add, slice_from-le, slice-some, slice_ends, is_char_boundary→At, nonempty_of_eq,
}
use endb.Cst.Event.{Event, ParseState}
use endb.Peg.Leaf.{
  Crates, whitespace, push_event, u32_mod, to_u32, skip_whitespace, push_pattern, push_literal,
  valid_next_char, literal_hit, run_pattern, run_literal,
}
use endb.Peg.WellFormed.{Analysis, is_empty}
use endb.Peg.Progress.Total.{RegexLaws, Ends, returns, Gives, Ends-unwrap, Advances}

to_u32_small : (n : ℕ) → n < u32_mod → to_u32 n ≡ some n
unfolding to_u32
to_u32_small n h = ground arith

push_pattern-Gives :
    (pos a b new_pos : ℕ) (st : ParseState)
    → new_pos < u32_mod
    → Gives (λ _. Unit {0}) (push_pattern pos a b new_pos st)
unfolding push_pattern
push_pattern-Gives pos a b new_pos st h = elim (Bool-cases (ltb a b)) [
  | inl e ↦ (push_event (Event.pattern pos new_pos) st, rw (e, to_u32_small new_pos h), tt)
  | inr e ↦ (st, rw e, tt)
]

push_literal-Gives :
    (lit : String) (pos stop : ℕ) (st : ParseState)
    → pos < u32_mod
    → stop < u32_mod
    → Gives (λ _. Unit {0}) (push_literal lit pos stop st)
unfolding push_literal
push_literal-Gives lit pos stop st h h' = elim (Bool-cases (ltb pos stop)) [
  | inl e ↦ (
    push_event (Event.literal lit pos stop) st,
    rw (e, to_u32_small pos h, to_u32_small stop h'),
    tt,
  )
  | inr e ↦ (st, rw e, tt)
]

module _ (lib : Crates) (a : Analysis) (laws : RegexLaws lib a) (input : Str)
    (small : byte_len input < u32_mod) where
  skip_whitespace-Gives :
      (pos : ℕ)
      → At input pos
      → Gives (λ next. (pos ≤ next) × At input next) (skip_whitespace lib input pos)
  unfolding skip_whitespace
  skip_whitespace-Gives pos (t, e) = elim (Option-cases (lib.find whitespace t)) [
    | inl n ↦ (
      pos,
      rw (e, n) (to_u32_small pos (omega (arith, slice_from-le input pos e))),
      (omega arith, (t, e)),
    )
    | inr ((x, y), f) ↦
        let (u, e') = (laws.find_range whitespace t f).1 in
        let at = slice_from-add input pos y e e' in
        (
          pos + y,
          rw (e, f) (to_u32_small (pos + y) (omega (arith, slice_from-le input (pos + y) at))),
          (omega arith, (u, at)),
        )
  ]

  pub run_pattern-Ends :
      (p : String) (pos : ℕ) (st : ParseState)
      → At input pos
      → Ends (λ r _. Advances input (a.consuming_pattern p) pos r) (run_pattern lib input p pos st)
  unfolding run_pattern
  run_pattern-Ends p pos st (t, e) = elim (Option-cases (lib.find p t)) [
    | inl n ↦ rw (e, n) (returns tt)
    | inr ((x, y), f) ↦
        let (u, e') = (laws.find_range p t f).1 in
        let at = slice_from-add input pos y e e' in
        let fits : pos + y < u32_mod = omega (arith, slice_from-le input (pos + y) at) in
        rw (e, f)
          (Ends-unwrap _ (push_pattern-Gives pos x y (pos + y) st fits) λ st' _.
            Ends-unwrap _ (skip_whitespace-Gives (pos + y) (u, at)) λ next (le, at').
              returns (omega arith, at', λ c. omega (arith, laws.find_consumes p t c f)))
  ]

  valid_next_char-Gives :
      (lit : String) (stop : ℕ)
      → At input stop
      → Gives (λ _. Unit {0}) (valid_next_char lib input lit stop)
  unfolding valid_next_char
  valid_next_char-Gives lit stop (t, e) = elim (Bool-cases (all_ascii_punctuation (codes lit))) [
    | inl q ↦ (true, rw q, tt)
    | inr q ↦
        elim t as (λ t. slice_from input stop ≡ some t → _) [
          | [] ↦ λ e. (true, rw (q, e), tt)
          | c ∷ _ ↦ λ e. ((if lib.is_alphanumeric c then false else true), rw (q, e), tt)
        ]
          e
  ]

  hit_ends :
      (pos stop : ℕ) (found lit : Str)
      → slice input pos stop ≡ some found
      → eq_ignore_ascii_case found lit ≡ true
      → not (is_empty lit) ≡ true
      → pos < stop
  hit_ends pos stop found [] e q n = absurd (false≢true n)
  hit_ends pos stop found (d ∷ lit) e q n =
      let (c, u, eq) = nonempty_of_eq found d lit q in slice_ends input pos stop (e ∙ ap some eq)

  literal_hit-Gives :
      (lit : String) (pos stop : ℕ)
      → At input pos
      → pos ≤ stop
      → Gives
          (λ hit. hit ≡ true → At input stop × (not (is_empty (codes lit)) ≡ true → pos < stop))
          (literal_hit lib input lit pos stop)
  unfolding literal_hit
  literal_hit-Gives lit pos stop at le = elim (Bool-cases (is_char_boundary input stop)) [
    | inr b ↦ (false, rw b, λ h. absurd (false≢true h))
    | inl b ↦
        let at' = is_char_boundary→At input stop b in
        let (found, e) = slice-some input pos stop le at at' in
        elim (Bool-cases (eq_ignore_ascii_case found (codes lit))) [
          | inr q ↦ (false, rw (b, e, q), λ h. absurd (false≢true h))
          | inl q ↦
              let (v, e', _) = valid_next_char-Gives lit stop at' in
              (v, rw (b, e, q) e', λ _. (at', hit_ends pos stop found (codes lit) e q))
        ]
  ]

  pub run_literal-Ends :
      (lit : String) (pos : ℕ) (st : ParseState)
      → At input pos
      → Ends
          (λ r _. Advances input (not (is_empty (codes lit))) pos r)
          (run_literal lib input lit pos st)
  unfolding run_literal
  run_literal-Ends lit pos st (t, e) =
      let stop = min (pos + byte_len (codes lit)) (byte_len input) in
      let le : pos ≤ stop = omega (arith, slice_from-le input pos e) in
      let fits : stop < u32_mod = omega arith in
      Ends-unwrap _ (literal_hit-Gives lit pos stop (t, e) le) (elim [
        | false ↦ λ _. returns tt
        | true ↦ λ h. Ends-unwrap _ (push_literal-Gives lit pos stop st (omega arith) fits) λ st' _.
            Ends-unwrap _ (skip_whitespace-Gives stop (h refl).0)
              λ next (le', at'). returns (omega arith, at', λ n. omega (arith, (h refl).1 n))
      ])
