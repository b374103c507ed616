-- ===== src/Peg/Meaning/Leaf.antt =====
-- lib/endb_proc_macro/src/lib.rs, `PegParser::Literal`: words at the front of a text, and what the
-- slices at byte positions come to.
use endb.Prelude.{
  ℕ, ◌+◌, ◌-◌, ◌≤◌, min, String, Bool, true, false, ◌||◌, not, Option, none, some, [], ◌∷◌, ◌≡◌,
  refl, ◌∙◌, arith, if◌then◌else◌, ◌==◌, inl, inr, Bool-cases, Option-cases, and-true,
}
use endb.Prelude.Text.{
  Str, codes, byte_len, len_utf8, len_utf8_pos, slice_from, slice_to, slice, is_char_boundary,
  to_ascii_lowercase, eq_ignore_ascii_case, all_ascii_punctuation,
}
use endb.Prelude.Slices.{
  slice_from-zero, slice_to-zero, slice_from-cons, slice_from-add, slice_from-le,
}
use endb.Peg.Leaf.{Crates, whitespace, literal_hit, valid_next_char}
use endb.Peg.Ensures.{Returns, panics, value}

-- the rest of the text after the word `l`, whatever the case of its letters
unfoldable pub after_word : Str → Str → Option Str
unfolding to_ascii_lowercase
after_word [] s = some s
after_word (d ∷ l) [] = none
after_word (d ∷ l) (c ∷ s) =
    let rest = after_word l s in if to_ascii_lowercase c == to_ascii_lowercase d then rest else none

module _ (lib : Crates) where
  -- what is left without the white space and the comments at the front
  unfoldable pub skip_space : Str → Option Str
  unfolding slice_from
  skip_space s = elim (lib.find whitespace s) [ none ↦ some s | some (a, b) ↦ slice_from s b ]

  -- a word of letters does not go on with another
  abbrev ends : String → Str → Bool
  ends l [] = true
  ends l (c ∷ s) = all_ascii_punctuation (codes l) || not (lib.is_alphanumeric c)

  -- the rest of the text after the word `l`
  unfoldable pub word : String → Str → Option Str
  unfolding after_word all_ascii_punctuation
  word l s = elim (after_word (codes l) s) [
    | none ↦ none
    | some t ↦ if ends l t then some t else none
  ]

len_utf8_same :
    (c d : ℕ) → (to_ascii_lowercase c == to_ascii_lowercase d) ≡ true → len_utf8 c ≡ len_utf8 d
unfolding to_ascii_lowercase len_utf8
len_utf8_same c d h = ground (arith, h)

slice_to-cons :
    (c : ℕ) (s : Str) (i : ℕ) {v : Str}
    → len_utf8 c ≤ i
    → slice_to s (i - len_utf8 c) ≡ some v
    → slice_to (c ∷ s) i ≡ some (c ∷ v)
unfolding slice_to
slice_to-cons c s i h e = ground (arith, len_utf8_pos c, e)

slice_to-cons_some :
    (x : ℕ) (s : Str) (i : ℕ) {c : ℕ} {v : Str}
    → slice_to (x ∷ s) i ≡ some (c ∷ v)
    → (c ≡ x) × (slice_to s (i - len_utf8 x) ≡ some v)
unfolding slice_to
slice_to-cons_some x s i h = elim (Option-cases (slice_to s (i - len_utf8 x))) [
  | inl n ↦ ground (arith, h, n)
  | inr (u, e) ↦ ground (arith, h, e)
]

after_word-slices :
    (l s : Str) {t : Str}
    → after_word l s ≡ some t
    → (slice_from s (byte_len l) ≡ some t)
      × ((v : Str) × (slice_to s (byte_len l) ≡ some v) × (eq_ignore_ascii_case v l ≡ true))
unfolding after_word byte_len eq_ignore_ascii_case
after_word-slices [] s h = (slice_from-zero s ∙ h, ([], slice_to-zero s, refl))
after_word-slices (d ∷ l) [] h = ground (arith, h)
after_word-slices (d ∷ l) (c ∷ s) h =
    elim (Bool-cases (to_ascii_lowercase c == to_ascii_lowercase d)) [
      | inr e ↦ ground (arith, h, e)
      | inl e ↦
          let (f, (v, g, q)) = after_word-slices l s (simp e at h) in
          let same = len_utf8_same c d e in
          let n : (len_utf8 d + byte_len l) - len_utf8 c ≡ byte_len l = omega arith in
          let i = len_utf8 d + byte_len l in
          (
            slice_from-cons c s i (omega arith) ∙ rw n f,
            (c ∷ v, slice_to-cons c s i (omega arith) (rw n g), simp e q),
          )
    ]

slice_to-nil : (n : ℕ) {c : ℕ} {v : Str} → slice_to [] n ≡ some (c ∷ v) → ⊥
unfolding slice_to
slice_to-nil n h = ground (arith, h)

slice_to-after_word :
    (s : Str) (n : ℕ) (v l : Str)
    → slice_to s n ≡ some v
    → eq_ignore_ascii_case v l ≡ true
    → (t : Str) × (after_word l s ≡ some t)
unfolding after_word eq_ignore_ascii_case
slice_to-after_word s n [] [] h e = (s, refl)
slice_to-after_word s n [] (d ∷ l) h e = ground (arith, e)
slice_to-after_word s n (c ∷ v) [] h e = ground (arith, e)
slice_to-after_word [] n (c ∷ v) (d ∷ l) h e = absurd (slice_to-nil n h)
slice_to-after_word (x ∷ s) n (c ∷ v) (d ∷ l) h e =
    let (same, h') = slice_to-cons_some x s n h in
    let (e₁, e₂) = and-true (to_ascii_lowercase c == to_ascii_lowercase d) _ e in
    let (t, a) = slice_to-after_word s (n - len_utf8 x) v l h' e₂ in
    let e₃ : (to_ascii_lowercase x == to_ascii_lowercase d) ≡ true = rw same at e₁ in (t, simp e₃ a)

module _ (lib : Crates) (input : Str) where
  valid_next_char-ends :
      (l : String) (stop : ℕ) (t : Str)
      → slice_from input stop ≡ some t
      → valid_next_char lib input l stop ≡ some (ends lib l t)
  unfolding valid_next_char
  valid_next_char-ends l stop [] e = ground (arith, e)
  valid_next_char-ends l stop (c ∷ s) e = ground (arith, e)

  -- what the word at the front decides
  abbrev pub Found : String → Str → ℕ → Bool → Type 0
  Found l s stop true = (t : Str) × (word lib l s ≡ some t) × (slice_from input stop ≡ some t)
  Found l s stop false = word lib l s ≡ none

  Found-ends :
      (l : String) (s : Str) (stop : ℕ) {t : Str}
      → after_word (codes l) s ≡ some t
      → slice_from input stop ≡ some t
      → Returns (Found l s stop) (some (ends lib l t))
  unfolding word
  Found-ends l s stop {t} a at = elim (Bool-cases (ends lib l t)) [
    | inl e ↦ rw e (value (t, ground (arith, a, e), at))
    | inr e ↦ rw e (value (ground (arith, a, e)))
  ]

  no_word : (l : String) (s : Str) → after_word (codes l) s ≡ none → word lib l s ≡ none
  unfolding word
  no_word l s n = ground (arith, n)

  literal_hit-some :
      (l : String) (pos stop : ℕ) {v : Str}
      → is_char_boundary input stop ≡ true
      → slice input pos stop ≡ some v
      → eq_ignore_ascii_case v (codes l) ≡ true
      → literal_hit lib input l pos stop ≡ valid_next_char lib input l stop
  unfolding literal_hit
  literal_hit-some l pos stop b v q = simp (b, v, q) refl

  slice-whole :
      (pos n : ℕ) {s v : Str}
      → slice_from input pos ≡ some s
      → slice_to s n ≡ some v
      → slice input pos (pos + n) ≡ some v
  unfolding slice
  slice-whole pos n e g = let m : (pos + n) - pos ≡ n = omega arith in simp (e, m, g) (ground arith)

  slice-part :
      (pos stop : ℕ) {s v : Str}
      → slice_from input pos ≡ some s
      → slice input pos stop ≡ some v
      → slice_to s (stop - pos) ≡ some v
  unfolding slice
  slice-part pos stop e h = ground (arith, e, h)

  boundary :
      (stop : ℕ) {t : Str} → slice_from input stop ≡ some t → is_char_boundary input stop ≡ true
  unfolding is_char_boundary
  boundary stop e = ground (arith, e)

  literal_hit-missed :
      (l : String) (pos stop : ℕ) {s : Str}
      → slice_from input pos ≡ some s
      → after_word (codes l) s ≡ none
      → Returns (Found l s stop) (literal_hit lib input l pos stop)
  unfolding literal_hit
  literal_hit-missed l pos stop {s} e n = elim (Bool-cases (is_char_boundary input stop)) [
    | inr b ↦ simp b (value (no_word l s n))
    | inl b ↦ elim (Option-cases (slice input pos stop)) [
      | inl p ↦ simp (b, p) panics
      | inr (v, h) ↦ elim (Bool-cases (eq_ignore_ascii_case v (codes l))) [
        | inr q ↦ simp (b, h, q) (value (no_word l s n))
        | inl q ↦
            let (t, a) =
              slice_to-after_word s (stop - pos) v (codes l) (slice-part pos stop e h) q in
            ground (arith, n, a)
      ]
    ]
  ]

  pub literal_hit-Found :
      (l : String) (pos : ℕ) {s : Str}
      → slice_from input pos ≡ some s
      → Returns
          (Found l s (min (pos + byte_len (codes l)) (byte_len input)))
          (literal_hit lib input l pos (min (pos + byte_len (codes l)) (byte_len input)))
  literal_hit-Found l pos {s} e = elim (Option-cases (after_word (codes l) s)) [
    | inl n ↦ literal_hit-missed l pos _ e n
    | inr (t, a) ↦
        let (f, (v, g, q)) = after_word-slices (codes l) s a in
        let at = slice_from-add input pos (byte_len (codes l)) e f in
        let m : min (pos + byte_len (codes l)) (byte_len input) ≡ pos + byte_len (codes l) =
          omega (arith, slice_from-le input _ at) in
        let hit =
          literal_hit-some l pos (pos + byte_len (codes l)) (boundary _ at) (slice-whole pos _ e g)
            q in
        rw (m, hit, valid_next_char-ends l _ t at) (Found-ends l s _ a at)
  ]
