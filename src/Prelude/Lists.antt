-- ===== src/Prelude/Lists.antt =====
-- Lists measured and indexed by native numbers, as Rust's `Vec`: pushed and popped at the end.
use Prim.Native.Nat.{ℕ, zero, suc, ◌+◌}
use mathlib.Core.Path.{◌≡◌, refl, ap}
use mathlib.Core.List.{List, [], ◌∷◌, ◌++◌}
use mathlib.Core.Option.{Option, none, some}
use mathlib.Core.Option
use native.Mathlib.Omega.{arith}

module _ {ℓ} {A : Type ℓ} where
  abbrev pub length : List A → ℕ
  length [] = 0
  length (x ∷ xs) = suc (length xs)

  abbrev pub get_elem? : List A → ℕ → Option A
  get_elem? [] i = none
  get_elem? (x ∷ xs) zero = some x
  get_elem? (x ∷ xs) (suc i) = get_elem? xs i

  abbrev pub set : List A → ℕ → A → List A
  set [] i v = []
  set (x ∷ xs) zero v = v ∷ xs
  set (x ∷ xs) (suc i) v = x ∷ set xs i v

  -- `Vec::truncate`
  abbrev pub take : ℕ → List A → List A
  take zero xs = []
  take (suc n) [] = []
  take (suc n) (x ∷ xs) = x ∷ take n xs

  abbrev pub last? : List A → Option A
  last? [] = none
  last? (x ∷ []) = some x
  last? (x ∷ y ∷ xs) = last? (y ∷ xs)

  -- `Vec::pop`, for what it leaves: `none` of an empty vector
  abbrev pub pop : List A → Option (List A)
  pop [] = none
  pop (x ∷ []) = some []
  pop (x ∷ y ∷ xs) = Option.map (λ r. x ∷ r) (pop (y ∷ xs))

  -- `Vec::push`
  abbrev pub push : List A → A → List A
  push xs x = xs ++ x ∷ []

  pub length-append : (xs ys : List A) → length (xs ++ ys) ≡ length xs + length ys
  length-append [] ys = omega arith
  length-append (x ∷ xs) ys = omega (arith, length-append xs ys)

  pub take-append : (xs ys : List A) → take (length xs) (xs ++ ys) ≡ xs
  take-append [] ys = refl
  take-append (x ∷ xs) ys = ap (λ r. x ∷ r) (take-append xs ys)

  pub take_self : (xs : List A) → take (length xs) xs ≡ xs
  take_self [] = refl
  take_self (x ∷ xs) = ap (λ r. x ∷ r) (take_self xs)

  pub get_elem?-append :
      (xs : List A) (y : A) (ys : List A) → get_elem? (xs ++ y ∷ ys) (length xs) ≡ some y
  get_elem?-append [] y ys = refl
  get_elem?-append (x ∷ xs) y ys = get_elem?-append xs y ys

  pub set-append :
      (xs : List A) (y v : A) (ys : List A) → set (xs ++ y ∷ ys) (length xs) v ≡ xs ++ v ∷ ys
  set-append [] y v ys = refl
  set-append (x ∷ xs) y v ys = ap (λ r. x ∷ r) (set-append xs y v ys)

  -- a vector that is not empty has what `pop` leaves
  pub pop-some :
      (x : A) (xs : List A) → (r : List A) × (pop (x ∷ xs) ≡ some r) × (length r ≡ length xs)
  pop-some x [] = ([], refl, refl)
  pop-some x (y ∷ xs) = let (r, e, l) = pop-some y xs in (x ∷ r, ground (arith, e), ap suc l)

  last?_cons : (x : A) (xs : List A) → (l : A) × (last? (x ∷ xs) ≡ some l)
  last?_cons x [] = (x, refl)
  last?_cons x (y ∷ xs) = last?_cons y xs

  pub last?-append : (xs : List A) (y : A) (ys : List A) → (l : A) × (last? (xs ++ y ∷ ys) ≡ some l)
  last?-append [] y ys = last?_cons y ys
  last?-append (x ∷ []) y ys = last?_cons y ys
  last?-append (x ∷ x' ∷ xs) y ys = last?-append (x' ∷ xs) y ys
