-- ===== src/Examples/Regex.antt =====
-- A small stand-in for the `regex` crate, which reads identifiers of letters, decimal numbers,
-- spaces and line feeds, and the proof that it obeys the laws that are asked of the crate.
use text.Mathlib.Text.{◌==◌ as str_eq}
use mathlib.Core.Option.{some-injective}
use endb.Prelude.{
  sym, ap, subst, false, ℕ, zero, suc, ◌-◌, ◌≤◌, ◌<◌, String, Bool, true, ◌||◌, ◌&&◌, Option, none,
  some, [], ◌∷◌, refl, ◌≡◌, ◌≢◌, ◌∙◌, inl, inr, arith, if◌then◌else◌, leb, ◌==◌, Bool-cases,
}
use endb.Prelude.Text.{Str, slice_from, len_utf8, len_utf8_pos}
use endb.Prelude.Slices.{At, slice_from-zero, slice_from-cons}
use endb.Peg.Leaf.{Crates, whitespace}
use endb.Peg.Progress.{RegexLaws}
use endb.Sql.Whole.{LineLaws}
use endb.Sql.Ranks.{sql_analysis}

abbrev is_space : ℕ → Bool
is_space c = (c == b' ') || (c == 10)

abbrev is_letter : ℕ → Bool
is_letter c = (leb b'a' c && leb c b'z') || (leb b'A' c && leb c b'Z')

abbrev is_digit : ℕ → Bool
is_digit c = leb b'0' c && leb c b'9'

-- how many characters at the front pass the test, if they are ASCII
span : (ℕ → Bool) → Str → ℕ
span test [] = 0
span test (c ∷ s) = let rest = span test s in if test c && leb c 127 then suc rest else 0

-- the width of the character at the front, if it is no line feed
one : Str → ℕ
unfolding len_utf8
one [] = 0
one (c ∷ s) = if c == 10 then 0 else len_utf8 c

abbrev ident_pattern : String
ident_pattern = "\\A\\b\\p{XID_START}\\p{XID_CONTINUE}*\\b"

abbrev number_pattern : String
number_pattern =
    "\\A(0[xX][0-9A-Fa-f]+|[0-9]+(\\.[0-9]*)?([eE][-+]?[0-9]+)?|\\.[0-9]+([eE][-+]?[0-9]+)?)"

abbrev nonempty : ℕ → Option (ℕ × ℕ)
nonempty zero = none
nonempty (suc n) = some (0, suc n)

unfoldable pub find : String → Str → Option (ℕ × ℕ)
unfolding span one
find p h =
    if str_eq p "\\A"
    then some (0, 0)
    else if str_eq p whitespace
    then some (0, span is_space h)
    else if str_eq p ident_pattern
    then nonempty (span is_letter h)
    else if str_eq p number_pattern
    then nonempty (span is_digit h)
    else if str_eq p "\\A."
    then nonempty (one h)
    else none

abbrev pub toy_crates : Crates
toy_crates = record { find = find; is_alphanumeric = λ c. is_letter c || is_digit c }

slice_from-ascii :
    (c : ℕ) (s : Str) (n : ℕ) {t : Str}
    → c ≤ 127
    → slice_from s n ≡ some t
    → slice_from (c ∷ s) (suc n) ≡ some t
unfolding slice_from len_utf8
slice_from-ascii c s n h e = let m : suc n - 1 ≡ n = omega arith in ground (arith, m)

span-At : (test : ℕ → Bool) (s : Str) → At s (span test s)
unfolding span
span-At test [] = ([], slice_from-zero [])
span-At test (c ∷ s) = elim (Bool-cases (test c && leb c 127)) [
  | inl e ↦
      let (t, h) = span-At test s in
      rw e (t, slice_from-ascii c s (span test s) (ground (arith, e)) h)
  | inr e ↦ rw e (c ∷ s, slice_from-zero (c ∷ s))
]

one-At : (s : Str) → At s (one s)
unfolding one
one-At [] = ([], slice_from-zero [])
one-At (c ∷ s) = elim (Bool-cases (c == 10)) [
  | inl e ↦ rw e (c ∷ s, slice_from-zero (c ∷ s))
  | inr e ↦
      let n : len_utf8 c - len_utf8 c ≡ 0 = omega arith in
      rw e (s, slice_from-cons c s (len_utf8 c) (omega arith) ∙ rw n (slice_from-zero s))
]

nonempty_range : (n : ℕ) {x y : ℕ} → nonempty n ≡ some (x, y) → (x ≡ 0) × (y ≡ n) × (0 < y)
nonempty_range zero e = cc
nonempty_range (suc n) e = ground arith

-- what a match of `find` is: empty, or the span of a test, which is not empty unless it is spaces
find_cases :
    (p : String) (h : Str) {x y : ℕ}
    → find p h ≡ some (x, y)
    → (x ≡ 0) × At h y × (sql_analysis.consuming_pattern p ≡ true → 0 < y)
unfolding find
find_cases p h {x} {y} e = elim (Bool-cases (str_eq p "\\A")) [
  | inl q ↦
      let v : (x ≡ 0) × (y ≡ 0) = ground (arith, q) in
      (v.0, rw v.1 (h, slice_from-zero h), λ c. ground (arith, q))
  | inr q ↦ elim (Bool-cases (str_eq p whitespace)) [
    | inl w ↦
        let v : (x ≡ 0) × (y ≡ span is_space h) = ground (arith, q, w) in
        (v.0, rw v.1 (span-At is_space h), λ c. ground (arith, q, w))
    | inr w ↦ elim (Bool-cases (str_eq p ident_pattern)) [
      | inl i ↦
          let v = nonempty_range (span is_letter h) {x = x} {y = y} (ground (arith, q, w, i)) in
          (v.0, rw v.1 (span-At is_letter h), λ c. v.2)
      | inr i ↦ elim (Bool-cases (str_eq p number_pattern)) [
        | inl d ↦
            let v = nonempty_range (span is_digit h) {x = x} {y = y} (ground (arith, q, w, i, d)) in
            (v.0, rw v.1 (span-At is_digit h), λ c. v.2)
        | inr d ↦ elim (Bool-cases (str_eq p "\\A.")) [
          | inl o ↦
              let v = nonempty_range (one h) {x = x} {y = y} (ground (arith, q, w, i, d, o)) in
              (v.0, rw v.1 (one-At h), λ c. v.2)
          | inr o ↦ ground (arith, q, w, i, d, o)
        ]
      ]
    ]
  ]
]

pub toy_laws : RegexLaws toy_crates sql_analysis
toy_laws = record {
  find_range = λ p h e. (omega (arith, (find_cases p h e).0), (find_cases p h e).1);
  find_consumes = λ p h c e. (find_cases p h e).2 c;
}

[]≢cons : {c : ℕ} {t : Str} → [] ≡ c ∷ t → ⊥
[]≢cons e = cc

none≢some : {p : ℕ × ℕ} → some p ≡ none → ⊥
none≢some e = cc

head_eq : {c d : ℕ} {s t : Str} → c ∷ s ≡ d ∷ t → c ≡ d
head_eq e = cc

not_space : (x c : ℕ) → x ≡ c → (is_space x && leb x 127) ≡ false → c ≢ 10
not_space x c e b n = ground (arith, e, b, n)

span_stops : (s : Str) {c : ℕ} {t : Str} → slice_from s (span is_space s) ≡ some (c ∷ t) → c ≢ 10
unfolding span len_utf8
span_stops [] e = absurd ([]≢cons (some-injective _ _ (sym (slice_from-zero []) ∙ e)))
span_stops (x ∷ s) {c} {t} e = elim (Bool-cases (is_space x && leb x 127)) [
  | inl b ↦
      let h = rw b at e in
      let n : suc (span is_space s) - len_utf8 x ≡ span is_space s = ground (arith, b) in
      span_stops s (
        subst (λ k. slice_from s k ≡ some (c ∷ t)) n
          (sym (slice_from-cons x s (suc (span is_space s)) (ground (arith, b))) ∙ h))
  | inr b ↦
      let h = rw b at e in
      let same = some-injective _ _ (sym (slice_from-zero (x ∷ s)) ∙ h) in
      λ n. not_space x c (head_eq same) b n
]

space_stops :
    (s : Str) {a b c : ℕ} {t : Str}
    → ◌≡◌ {A = Option (ℕ × ℕ)} (some (0, span is_space s)) (some (a, b))
    → slice_from s b ≡ some (c ∷ t)
    → c ≢ 10
space_stops s {c = c} {t} f e =
    let same = ap (λ p. p.1) (some-injective _ _ f) in
    span_stops s {t = t} (subst (λ k. slice_from s k ≡ some (c ∷ t)) (sym same) e)

nonempty-none : (n : ℕ) → nonempty n ≡ none → n ≡ 0
nonempty-none zero e = refl
nonempty-none (suc n) e = cc

one_none : (c : ℕ) (s : Str) → one (c ∷ s) ≡ 0 → c ≡ 10
unfolding one
one_none c s e = ground (arith, len_utf8_pos c, e)

pub toy_lines : LineLaws toy_crates
unfolding find
toy_lines = record {
  dot_fails = λ c s e. one_none c s (nonempty-none (one (c ∷ s)) e);
  space_matches = λ s e. none≢some e;
  space_takes = λ s f e. space_stops s f e;
}
