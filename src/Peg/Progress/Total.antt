-- ===== src/Peg/Progress/Total.antt =====
-- Total postconditions: the call returns and its result is as stated, or the events outgrew `u32`.
use endb.Prelude.{ℕ, ◌≤◌, ◌<◌, String, Bool, true, Option, none, some, ◌≡◌, refl}
use endb.Prelude.Text.{Str}
use endb.Prelude.Slices.{At}
use endb.Cst.Event.{ParseState, ParseResult, ok, err}
use endb.Peg.Outcome.{Outcome, done, fault, overflow, follow, or_fault}
use endb.Peg.Leaf.{Crates, ◌>>=◌, unwrap}
use endb.Peg.Ensures.{Ensures, holds}
use endb.Peg.WellFormed.{Analysis}

-- What the generated code relies on of the `regex` crate: a match is a range of the text, with
-- its end on a character boundary; the patterns said to consume match no empty text.
pub record RegexLaws (lib : Crates) (a : Analysis) : Type 0 where
  pub find_range : (p : String) (h : Str) {x y : ℕ} → lib.find p h ≡ some (x, y) → (x ≤ y) × At h y
  pub find_consumes :
      (p : String) (h : Str) {x y : ℕ}
      → a.consuming_pattern p ≡ true
      → lib.find p h ≡ some (x, y)
      → 0 < y

pub data Ends (P : ParseResult → ParseState → Type 0) : Outcome → Type 0 where
  returns : {r : ParseResult} {st : ParseState} → P r st → Ends P (done r st)
  overflows : Ends P (fault overflow)

module _ {P : ParseResult → ParseState → Type 0} where
  pub Ends-follow :
      {Q : ParseResult → ParseState → Type 0} {o : Outcome} (k : ParseResult → ParseState → Outcome)
      → Ends P o
      → ((r : ParseResult) (st : ParseState) → P r st → Ends Q (k r st))
      → Ends Q (follow o k)
  Ends-follow k (returns h) g = g _ _ h
  Ends-follow k overflows g = overflows

  pub Ends-map :
      {Q : ParseResult → ParseState → Type 0} {o : Outcome}
      → ((r : ParseResult) (st : ParseState) → P r st → Q r st)
      → Ends P o
      → Ends Q o
  Ends-map g (returns h) = returns (g _ _ h)
  Ends-map g overflows = overflows

  pub Ends-and :
      {Q : ParseResult → ParseState → Type 0} {o : Outcome}
      → Ends P o
      → Ensures Q o
      → Ends (λ r st. P r st × Q r st) o
  Ends-and (returns h) (holds q) = returns (h, q)
  Ends-and overflows q = overflows

-- The value is there, and `P` holds of it.
abbrev pub Gives {ℓ κ} : {A : Type ℓ} → (A → Type κ) → Option A → Type (ℓ ⊔ κ)
Gives {A} P m = (a : A) × (m ≡ some a) × P a

pub Ends-unwrap {ℓ κ} :
    {A : Type ℓ} {P : A → Type κ} {Q : ParseResult → ParseState → Type 0} {m : Option A}
    (k : A → Option Outcome)
    → Gives P m
    → ((a : A) → P a → Ends Q (unwrap (k a)))
    → Ends Q (unwrap (m >>= k))
Ends-unwrap k (a, e, h) g = rw e (g a h)

pub Ends-or_fault {ℓ} :
    {A : Type ℓ} {Q : ParseResult → ParseState → Type 0} (m : Option A) (k : A → Outcome)
    → ((a : A) → m ≡ some a → Ends Q (k a))
    → Ends Q (or_fault overflow m k)
Ends-or_fault none k g = overflows
Ends-or_fault (some a) k g = g a refl

-- A success stays on boundaries of the input and goes forward, strictly if `strict`.
abbrev pub Advances : Str → Bool → ℕ → ParseResult → Type 0
Advances input strict pos (ok new_pos) =
    (pos ≤ new_pos) × At input new_pos × (strict ≡ true → pos < new_pos)
Advances input strict pos (err e) = Unit {0}
