-- ===== src/Prelude/Slices.antt =====
-- Laws of Rust's slices at byte positions.
use Prim.Native.Nat.{ℕ, zero, suc, ◌+◌, ◌-◌, ◌≤◌, ◌<◌}
use mathlib.Core.Path.{◌≡◌, refl, sym, ◌∙◌}
use mathlib.Core.Logic.{inl, inr}
use mathlib.Core.Bool.{true, false≢true}
use mathlib.Core.List.{[], ◌∷◌}
use mathlib.Core.Option.{some, some-injective}
use native.Mathlib.Omega.{arith}
use endb.Prelude.Tests.{Option-cases}
use endb.Prelude.Text.{
  Str, len_utf8, len_utf8_pos, byte_len, slice_from, slice_to, slice, is_char_boundary,
  eq_ignore_ascii_case,
}

-- `i` is a boundary of `s`
abbrev pub At : Str → ℕ → Type 0
At s i = (t : Str) × (slice_from s i ≡ some t)

pub slice_from-zero : (s : Str) → slice_from s 0 ≡ some s
unfolding slice_from
slice_from-zero [] = refl
slice_from-zero (c ∷ s) = refl

-- a boundary past the first character is a boundary of the rest
pub slice_from-cons :
    (c : ℕ) (s : Str) (i : ℕ)
    → len_utf8 c ≤ i
    → slice_from (c ∷ s) i ≡ slice_from s (i - len_utf8 c)
unfolding slice_from
slice_from-cons c s i h = ground (arith, len_utf8_pos c)

slice_from-cons_some :
    (c : ℕ) (s : Str) (i : ℕ) {t : Str}
    → slice_from (c ∷ s) i ≡ some t
    → 0 < i
    → (len_utf8 c ≤ i) × (slice_from s (i - len_utf8 c) ≡ some t)
unfolding slice_from
slice_from-cons_some c s i e h = ground arith

slice_from-nil : (i : ℕ) {t : Str} → slice_from [] i ≡ some t → (i ≡ 0) × (t ≡ [])
unfolding slice_from
slice_from-nil i e = ground arith

pub slice_from-add :
    (s : Str) (i j : ℕ) {t u : Str}
    → slice_from s i ≡ some t
    → slice_from t j ≡ some u
    → slice_from s (i + j) ≡ some u
slice_from-add s zero j e e' =
    let s_t = rw (slice_from-zero s) at e in
    let n : 0 + j ≡ j = omega arith in rw (n, some-injective _ _ s_t) e'
slice_from-add [] (suc i) j e e' = absurd (omega (arith, (slice_from-nil (suc i) e).0))
slice_from-add (c ∷ s) (suc i) j e e' =
    let (fits, e₁) = slice_from-cons_some c s (suc i) e (omega arith) in
    let n : (suc i - len_utf8 c) + j ≡ (suc i + j) - len_utf8 c = omega arith in
    slice_from-cons c s (suc i + j) (omega arith)
    ∙ rw (← n) (slice_from-add s (suc i - len_utf8 c) j e₁ e')

pub slice_from-le : (s : Str) (i : ℕ) {t : Str} → slice_from s i ≡ some t → i ≤ byte_len s
unfolding byte_len
slice_from-le [] i e = omega (arith, (slice_from-nil i e).0)
slice_from-le (c ∷ s) zero e = omega arith
slice_from-le (c ∷ s) (suc i) e =
    let (fits, e₁) = slice_from-cons_some c s (suc i) e (omega arith) in
    omega (arith, slice_from-le s (suc i - len_utf8 c) e₁)

-- only the end leaves nothing
pub slice_from-at_end : (s : Str) (i : ℕ) → slice_from s i ≡ some [] → i ≡ byte_len s
unfolding byte_len
slice_from-at_end [] i e = omega (arith, (slice_from-nil i e).0)
slice_from-at_end (c ∷ s) zero e =
    let whole = some-injective _ _ (sym (slice_from-zero (c ∷ s)) ∙ e) in absurd cc
slice_from-at_end (c ∷ s) (suc i) e =
    let (fits, e₁) = slice_from-cons_some c s (suc i) e (omega arith) in
    omega (arith, slice_from-at_end s (suc i - len_utf8 c) e₁)

pub is_char_boundary→At : (s : Str) (i : ℕ) → is_char_boundary s i ≡ true → At s i
unfolding is_char_boundary
is_char_boundary→At s i e = elim (Option-cases (slice_from s i)) [
  | inl n ↦ absurd (false≢true (rw (n, is_char_boundary) at e))
  | inr (t, h) ↦ (t, h)
]

pub At-zero : (s : Str) → At s 0
At-zero s = (s, slice_from-zero s)

pub slice_to-zero : (s : Str) → slice_to s 0 ≡ some []
unfolding slice_to
slice_to-zero [] = refl
slice_to-zero (c ∷ s) = refl

-- a slice that is not empty has its ends apart
pub slice_ends : (s : Str) (a b : ℕ) {c : ℕ} {t : Str} → slice s a b ≡ some (c ∷ t) → a < b
unfolding slice
slice_ends s a b e = elim (Option-cases (slice_from s a)) [
  | inl n ↦ ground arith
  | inr (t', h) ↦ ground (arith, h, slice_to-zero t')
]

-- a text that is equal to a nonempty one, up to case, is not empty
pub nonempty_of_eq :
    (s : Str) (d : ℕ) (t : Str)
    → eq_ignore_ascii_case s (d ∷ t) ≡ true
    → (c : ℕ) × (u : Str) × (s ≡ c ∷ u)
unfolding eq_ignore_ascii_case
nonempty_of_eq [] d t e = absurd (false≢true e)
nonempty_of_eq (c ∷ u) d t e = (c, u, refl)

slice_to-some :
    (s : Str) (i : ℕ) {u : Str} → slice_from s i ≡ some u → (v : Str) × (slice_to s i ≡ some v)
unfolding slice_to
slice_to-some [] i e = ([], ground (arith, (slice_from-nil i e).0))
slice_to-some (c ∷ s) zero e = ([], refl)
slice_to-some (c ∷ s) (suc i) e =
    let (fits, e₁) = slice_from-cons_some c s (suc i) e (omega arith) in
    let (v, e₂) = slice_to-some s (suc i - len_utf8 c) e₁ in (c ∷ v, ground (arith, e₂))

slice_from_sub :
    (s : Str) (a b : ℕ) {t u : Str}
    → a ≤ b
    → slice_from s a ≡ some t
    → slice_from s b ≡ some u
    → slice_from t (b - a) ≡ some u
slice_from_sub s zero b h e e' =
    let n : b - 0 ≡ b = omega arith in rw (n, ← some-injective _ _ (sym (slice_from-zero s) ∙ e)) e'
slice_from_sub [] (suc a) b h e e' = absurd (omega (arith, (slice_from-nil (suc a) e).0))
slice_from_sub (c ∷ s) (suc a) b h e e' =
    let (fits, e₁) = slice_from-cons_some c s (suc a) e (omega arith) in
    let (fits', e₂) = slice_from-cons_some c s b e' (omega arith) in
    let n : (b - len_utf8 c) - (suc a - len_utf8 c) ≡ b - suc a = omega arith in
    rw (← n) (slice_from_sub s (suc a - len_utf8 c) (b - len_utf8 c) (omega arith) e₁ e₂)

-- a slice between two boundaries does not panic
pub slice-some : (s : Str) (a b : ℕ) → a ≤ b → At s a → At s b → (v : Str) × (slice s a b ≡ some v)
unfolding slice
slice-some s a b h (t, e) (u, e') =
    let (v, e₂) = slice_to-some t (b - a) (slice_from_sub s a b h e e') in (v, ground (arith, e₂))
