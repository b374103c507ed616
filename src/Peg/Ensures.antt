-- ===== src/Peg/Ensures.antt =====
-- Postconditions of a call: they say nothing of a fault.
use mathlib.Core.Option.{some-injective}
use endb.Prelude.{refl, subst, Option, none, some, ◌≡◌, arith}
use endb.Cst.Event.{ParseState, ParseResult}
use endb.Peg.Leaf.{◌>>=◌, unwrap}
use endb.Peg.Outcome.{Fault, Outcome, done, fault, follow, or_fault}

pub data Ensures (P : ParseResult → ParseState → Type 0) : Outcome → Type 0 where
  holds : {r : ParseResult} {st : ParseState} → P r st → Ensures P (done r st)
  faulted : {x : Fault} → Ensures P (fault x)

module _ {P : ParseResult → ParseState → Type 0} where
  pub Ensures-done :
      {o : Outcome} {r : ParseResult} {st : ParseState} → Ensures P o → o ≡ done r st → P r st
  Ensures-done (holds h) e = ground arith
  Ensures-done faulted e = cc

  pub Ensures-map :
      {Q : ParseResult → ParseState → Type 0} {o : Outcome}
      → ((r : ParseResult) (st : ParseState) → P r st → Q r st)
      → Ensures P o
      → Ensures Q o
  Ensures-map g (holds h) = holds (g _ _ h)
  Ensures-map g faulted = faulted

  pub Ensures-follow :
      {Q : ParseResult → ParseState → Type 0} {o : Outcome} {k : ParseResult → ParseState → Outcome}
      → Ensures P o
      → ((r : ParseResult) (st : ParseState) → P r st → Ensures Q (k r st))
      → Ensures Q (follow o k)
  Ensures-follow (holds h) g = g _ _ h
  Ensures-follow faulted g = faulted

-- `P` holds of the value, if there is one.
pub data Returns {ℓ κ} {A : Type ℓ} (P : A → Type κ) : Option A → Type (ℓ ⊔ κ) where
  panics : Returns P none
  value : {a : A} → P a → Returns P (some a)

module _ {ℓ κ} {A : Type ℓ} {P : A → Type κ} where
  pub Returns-bind {ℓ' κ'} :
      {B : Type ℓ'} {Q : B → Type κ'} {m : Option A} {k : A → Option B}
      → Returns P m
      → ((a : A) → P a → Returns Q (k a))
      → Returns Q (m >>= k)
  Returns-bind panics g = panics
  Returns-bind (value h) g = g _ h

  pub Ensures-unwrap :
      {Q : ParseResult → ParseState → Type 0} {m : Option A} (k : A → Option Outcome)
      → Returns P m
      → ((a : A) → P a → Ensures Q (unwrap (k a)))
      → Ensures Q (unwrap (m >>= k))
  Ensures-unwrap k panics g = faulted
  Ensures-unwrap k (value h) g = g _ h

  pub Ensures-or_fault :
      {Q : ParseResult → ParseState → Type 0} (x : Fault) {m : Option A} (k : A → Outcome)
      → Returns P m
      → ((a : A) → P a → Ensures Q (k a))
      → Ensures Q (or_fault x m k)
  Ensures-or_fault x k panics g = faulted
  Ensures-or_fault x k (value h) g = g _ h

  pub Returns-some : {m : Option A} {a : A} → Returns P m → m ≡ some a → P a
  Returns-some panics e = cc
  Returns-some (value {a} h) e = subst P (some-injective _ _ e) h

pub Returns-any {ℓ} : {A : Type ℓ} (m : Option A) → Returns (λ a. m ≡ some a) m
Returns-any none = panics
Returns-any (some a) = value refl

pub Ensures-both :
    {P Q : ParseResult → ParseState → Type 0} {o : Outcome}
    → Ensures P o
    → Ensures Q o
    → Ensures (λ r st. P r st × Q r st) o
Ensures-both (holds h) q = holds (h, Ensures-done q refl)
Ensures-both faulted q = faulted
