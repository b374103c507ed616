-- ===== src/Cst/Report/Groups/Totals.antt =====
-- lib/endb_cst/src/lib.rs, `parse_errors_to_string`: sums over the entries of the hash maps.
use text.Mathlib.Text.{◌==◌ as str_eq}
use text.Mathlib.TextEquality.{eq_iff}
use endb.Prelude.{
  ℕ, ◌+◌, ◌≤◌, Bool, true, false, ◌||◌, List, [], ◌∷◌, ◌++◌, ◌≡◌, refl, ap, ◌∙◌, arith, inl, inr,
  Bool-cases, and-true, if◌then◌else◌,
}
use mathlib.Core.Path.{ap₂}
use endb.Cst.Errors.{ParseError}
use endb.Cst.Report.Sorting.{insert, sort}
use endb.Cst.Report.Groups.{Context, Groups, context_eq, append_errors}

abbrev pub Group : Type 0
Group = Context × List ParseError

-- the sum of a weight over the entries
abbrev pub total : (Group → ℕ) → Groups → ℕ
total f [] = 0
total f (g ∷ gs) = f g + total f gs

-- What is relied on of the order of a hash map: each entry is read once.
abbrev pub ReadsOnce : (Groups → Groups) → Type 0
ReadsOnce iter = (f : Group → ℕ) (gs : Groups) → total f (iter gs) ≡ total f gs

-- the sum of a weight over errors
abbrev pub weigh : (ParseError → ℕ) → List ParseError → ℕ
weigh w [] = 0
weigh w (e ∷ es) = w e + weigh w es

abbrev pub of_errors : (ParseError → ℕ) → Group → ℕ
of_errors w (k, es) = weigh w es

-- 1 for the entry at a key
abbrev pub at_key : Context → Context → ℕ
at_key k k' = if context_eq k k' then 1 else 0

-- no key has two entries
abbrev pub Distinct : Groups → Type 0
Distinct gs = (k : Context) → total (λ g. at_key k g.0) gs ≤ 1

pub context_eq→eq : (k k' : Context) → context_eq k k' ≡ true → k ≡ k'
context_eq→eq [] [] h = refl
context_eq→eq [] (y ∷ ys) h = ground (arith, h)
context_eq→eq (x ∷ xs) [] h = ground (arith, h)
context_eq→eq (x ∷ xs) (y ∷ ys) h =
    let (h₁, h₂) = and-true (str_eq x y) _ h in ap₂ ◌∷◌ ((eq_iff x y).0 h₁) (context_eq→eq xs ys h₂)

pub context_eq_refl : (k : Context) → context_eq k k ≡ true
context_eq_refl [] = refl
context_eq_refl (x ∷ xs) =
    let h : str_eq x x ≡ true = (eq_iff x x).1 refl in simp h (context_eq_refl xs)

weigh-append :
    (w : ParseError → ℕ) (xs ys : List ParseError) → weigh w (xs ++ ys) ≡ weigh w xs + weigh w ys
weigh-append w [] ys = omega arith
weigh-append w (x ∷ xs) ys = omega (arith, weigh-append w xs ys)

pub total-append_errors :
    (w : ParseError → ℕ) (key : Context) (errs : List ParseError) (gs : Groups)
    → total (of_errors w) (append_errors key errs gs) ≡ total (of_errors w) gs + weigh w errs
unfolding append_errors
total-append_errors w key errs [] = omega arith
total-append_errors w key errs ((k, es) ∷ gs) = elim (Bool-cases (context_eq key k)) [
  | inl e ↦ simp e (omega (arith, weigh-append w es errs))
  | inr e ↦ simp e (omega (arith, total-append_errors w key errs gs))
]

abbrev present : Context → Groups → Bool
present key [] = false
present key ((k, es) ∷ gs) = context_eq key k || present key gs

-- a weight of the keys alone
keys-append_errors :
    (f : Context → ℕ) (key : Context) (errs : List ParseError) (gs : Groups)
    → total (λ g. f g.0) (append_errors key errs gs)
      ≡ total (λ g. f g.0) gs + (if present key gs then 0 else f key)
unfolding append_errors
keys-append_errors f key errs [] = omega arith
keys-append_errors f key errs ((k, es) ∷ gs) = elim (Bool-cases (context_eq key k)) [
  | inl e ↦ simp e (omega arith)
  | inr e ↦ simp e (omega (arith, keys-append_errors f key errs gs))
]

-- a weight that is zero at the keys stays zero
pub zero-append_errors :
    (f : Context → ℕ) (key : Context) (errs : List ParseError) (gs : Groups)
    → f key ≡ 0
    → total (λ g. f g.0) gs ≡ 0
    → total (λ g. f g.0) (append_errors key errs gs) ≡ 0
zero-append_errors f key errs gs h h' = elim (Bool-cases (present key gs)) [
  | inl e ↦ keys-append_errors f key errs gs ∙ simp e (omega arith)
  | inr e ↦ keys-append_errors f key errs gs ∙ simp e (omega arith)
]

absent_zero : (k : Context) (gs : Groups) → present k gs ≡ false → total (λ g. at_key k g.0) gs ≡ 0
absent_zero k [] h = refl
absent_zero k ((k', es) ∷ gs) h = elim (Bool-cases (context_eq k k')) [
  | inl e ↦ ground (arith, h, e)
  | inr e ↦ simp e (omega (arith, absent_zero k gs (simp e at h)))
]

pub Distinct-append_errors :
    (key : Context) (errs : List ParseError) (gs : Groups)
    → Distinct gs
    → Distinct (append_errors key errs gs)
Distinct-append_errors key errs gs d k =
    let sum = keys-append_errors (at_key k) key errs gs in
    elim (Bool-cases (present key gs)) [
      | inl e ↦ rw (sum, e) (omega (arith, d k))
      | inr e ↦ elim (Bool-cases (context_eq k key)) [
        | inr n ↦ rw (sum, e, n) (omega (arith, d k))
        | inl y ↦
            let same = context_eq→eq k key y in
            let none_yet = absent_zero key gs e in rw (sum, e, y, same) (omega (arith, none_yet))
      ]
    ]

pub total-sort :
    (f : Group → ℕ) (le : Group → Group → Bool) (gs : Groups) → total f (sort le gs) ≡ total f gs
unfolding sort
total-sort f le [] = refl
total-sort f le (g ∷ gs) = total-insert (sort le gs) ∙ ap (λ (n : ℕ). f g + n) (total-sort f le gs)
  where
    total-insert : (hs : Groups) → total f (insert le g hs) ≡ f g + total f hs
    total-insert [] = refl
    total-insert (h ∷ hs) = elim (Bool-cases (le g h)) [
      | inl e ↦ simp e refl
      | inr e ↦ simp e (omega (arith, total-insert hs))
    ]
