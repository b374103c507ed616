-- ===== src/Cst/Report/Sorting/Laws.antt =====
-- lib/endb_cst/src/lib.rs: sorting texts and taking out the repeated ones.
use endb.Prelude.{
  Bool, true, false, ◌||◌, List, [], ◌∷◌, ◌≡◌, refl, sym, ap, ◌∙◌, subst, arith, ◌==◌, inl, inr,
  Bool-cases, and-true, ==→eq,
}
use mathlib.Core.Path.{ap₂}
use endb.Prelude.Text.{Str}
use endb.Cst.Report.Types.{text_eq}
use endb.Cst.Report.Sorting.{lex_le, insert, sort, dedup, dedup_after}

pub text_eq→eq : (s t : Str) → text_eq s t ≡ true → s ≡ t
text_eq→eq [] [] h = refl
text_eq→eq [] (d ∷ t) h = ground (arith, h)
text_eq→eq (c ∷ s) [] h = ground (arith, h)
text_eq→eq (c ∷ s) (d ∷ t) h =
    let (h₁, h₂) = and-true (c == d) _ h in ap₂ ◌∷◌ (==→eq c d h₁) (text_eq→eq s t h₂)

lex_le_total : (s t : Str) → lex_le s t ≡ false → lex_le t s ≡ true
unfolding lex_le
lex_le_total [] t h = ground (arith, h)
lex_le_total (c ∷ s) [] h = refl
lex_le_total (c ∷ s) (d ∷ t) h = elim (Bool-cases (lex_le s t)) [
  | inl e ↦ ground (arith, h, e)
  | inr e ↦ ground (arith, h, e, lex_le_total s t e)
]

lex_le_antisym : (s t : Str) → lex_le s t ≡ true → lex_le t s ≡ true → text_eq s t ≡ true
unfolding lex_le
lex_le_antisym [] [] h h' = refl
lex_le_antisym [] (d ∷ t) h h' = ground (arith, h')
lex_le_antisym (c ∷ s) [] h h' = ground (arith, h)
lex_le_antisym (c ∷ s) (d ∷ t) h h' = elim (Bool-cases (lex_le s t)) [
  | inr e ↦ ground (arith, h, h', e)
  | inl e ↦ elim (Bool-cases (lex_le t s)) [
    | inr e' ↦ ground (arith, h, h', e')
    | inl e' ↦ ground (arith, h, h', e, e', lex_le_antisym s t e e')
  ]
]

abbrev Sorted : List Str → Type 0
Sorted [] = Unit {0}
Sorted (x ∷ []) = Unit {0}
Sorted (x ∷ y ∷ ys) = (lex_le x y ≡ true) × Sorted (y ∷ ys)

-- each text is strictly before the next
abbrev pub Increasing : List Str → Type 0
Increasing [] = Unit {0}
Increasing (x ∷ []) = Unit {0}
Increasing (x ∷ y ∷ ys) = (lex_le y x ≡ false) × Increasing (y ∷ ys)

abbrev pub contains : Str → List Str → Bool
contains t [] = false
contains t (x ∷ xs) = text_eq t x || contains t xs

insert-Sorted_after :
    (x y : Str) (ys : List Str)
    → Sorted (y ∷ ys)
    → lex_le y x ≡ true
    → Sorted (y ∷ insert lex_le x ys)
unfolding insert
insert-Sorted_after x y [] s h = (h, tt)
insert-Sorted_after x y (z ∷ zs) (h', s) h = elim (Bool-cases (lex_le x z)) [
  | inl e ↦ simp e (h, (refl, s))
  | inr e ↦ simp e (h', insert-Sorted_after x z zs s (lex_le_total x z e))
]

insert-Sorted : (x : Str) (ys : List Str) → Sorted ys → Sorted (insert lex_le x ys)
unfolding insert
insert-Sorted x [] s = tt
insert-Sorted x (y ∷ ys) s = elim (Bool-cases (lex_le x y)) [
  | inl e ↦ simp e (refl, s)
  | inr e ↦ simp e (insert-Sorted_after x y ys s (lex_le_total x y e))
]

sort-Sorted : (xs : List Str) → Sorted (sort lex_le xs)
unfolding sort
sort-Sorted [] = tt
sort-Sorted (x ∷ xs) = insert-Sorted x (sort lex_le xs) (sort-Sorted xs)

dedup_after-cons :
    (y : Str) (ys : List Str) → (rest : List Str) × (dedup_after text_eq y ys ≡ y ∷ rest)
unfolding dedup_after
dedup_after-cons y [] = ([], refl)
dedup_after-cons y (z ∷ zs) = elim (Bool-cases (text_eq y z)) [
  | inl e ↦ let (rest, h) = dedup_after-cons y zs in (rest, simp e h)
  | inr e ↦ (dedup_after text_eq z zs, simp e refl)
]

Sorted-skip : (x y : Str) (ys : List Str) → x ≡ y → Sorted (x ∷ y ∷ ys) → Sorted (x ∷ ys)
Sorted-skip x y ys e (h, s) = subst (λ t. Sorted (t ∷ ys)) (sym e) s

strict : (x y : Str) → text_eq x y ≡ false → lex_le x y ≡ true → lex_le y x ≡ false
strict x y e le = elim (Bool-cases (lex_le y x)) [
  | inr f ↦ f
  | inl f ↦ ground (arith, e, lex_le_antisym x y le f)
]

dedup_after-Increasing :
    (x : Str) (ys : List Str) → Sorted (x ∷ ys) → Increasing (dedup_after text_eq x ys)
unfolding dedup_after
dedup_after-Increasing x [] s = tt
dedup_after-Increasing x (y ∷ ys) s = elim (Bool-cases (text_eq x y)) [
  | inl e ↦ simp e (dedup_after-Increasing x ys (Sorted-skip x y ys (text_eq→eq x y e) s))
  | inr e ↦
      let (rest, h) = dedup_after-cons y ys in
      let tail = subst Increasing h (dedup_after-Increasing y ys s.1) in
      simp (e, h) (strict x y e s.0, tail)
]

contains-insert :
    (t x : Str) (ys : List Str) → contains t (insert lex_le x ys) ≡ (text_eq t x || contains t ys)
unfolding insert
contains-insert t x [] = refl
contains-insert t x (y ∷ ys) = elim (Bool-cases (lex_le x y)) [
  | inl e ↦ simp e refl
  | inr e ↦ simp (e, contains-insert t x ys) (ground arith)
]

contains-sort : (t : Str) (xs : List Str) → contains t (sort lex_le xs) ≡ contains t xs
unfolding sort
contains-sort t [] = refl
contains-sort t (x ∷ xs) =
    contains-insert t x (sort lex_le xs) ∙ ap (λ b. text_eq t x || b) (contains-sort t xs)

again : {a b : Bool} (c : Bool) → a ≡ b → (a || c) ≡ (a || (b || c))
again {a} {b} c e = ground (arith, e)

contains-dedup_after :
    (t x : Str) (ys : List Str) → contains t (dedup_after text_eq x ys) ≡ contains t (x ∷ ys)
unfolding dedup_after
contains-dedup_after t x [] = refl
contains-dedup_after t x (y ∷ ys) = elim (Bool-cases (text_eq x y)) [
  | inl e ↦
      let p : text_eq t x ≡ text_eq t y = ap (text_eq t) (text_eq→eq x y e) in
      simp e (contains-dedup_after t x ys ∙ again (contains t ys) p)
  | inr e ↦ simp (e, contains-dedup_after t y ys) refl
]

-- Sorted and with the repeated ones out, the texts are in strictly increasing order, and they are
-- the same texts.
pub dedup-sort :
    (xs : List Str)
    → Increasing (dedup text_eq (sort lex_le xs))
      × ((t : Str) → contains t (dedup text_eq (sort lex_le xs)) ≡ contains t xs)
unfolding dedup
dedup-sort xs = (
  increasing (sort lex_le xs) (sort-Sorted xs),
  λ t. same t (sort lex_le xs) ∙ contains-sort t xs,
)
  where
    increasing : (ys : List Str) → Sorted ys → Increasing (dedup text_eq ys)
    increasing [] s = tt
    increasing (y ∷ ys) s = dedup_after-Increasing y ys s

    same : (t : Str) (ys : List Str) → contains t (dedup text_eq ys) ≡ contains t ys
    same t [] = refl
    same t (y ∷ ys) = contains-dedup_after t y ys
