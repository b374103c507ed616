-- ===== src/Macro/Result.antt =====
-- How a parser of tokens ends: with a value, with a syntax error, or for lack of fuel.
pub data Result {ℓ} (A : Type ℓ) : Type ℓ where
  ok : A → Result A
  failed : Result A
  out_of_fuel : Result A

infixl 5 ◌>>=◌
abbrev pub ◌>>=◌ {ℓ κ} : {A : Type ℓ} {B : Type κ} → Result A → (A → Result B) → Result B
ok a >>= k = k a
failed >>= k = failed
out_of_fuel >>= k = out_of_fuel

-- It ends with a value as stated, or with a syntax error.
pub data Reads {ℓ κ} {A : Type ℓ} (P : A → Type κ) : Result A → Type (ℓ ⊔ κ) where
  reads : {a : A} → P a → Reads P (ok a)
  rejects : Reads P failed

module _ {ℓ κ} {A : Type ℓ} {P : A → Type κ} where
  pub Reads-bind {ℓ' κ'} :
      {B : Type ℓ'} {Q : B → Type κ'} {r : Result A} (k : A → Result B)
      → Reads P r
      → ((a : A) → P a → Reads Q (k a))
      → Reads Q (r >>= k)
  Reads-bind k (reads h) g = g _ h
  Reads-bind k rejects g = rejects

  pub Reads-map {κ'} :
      {Q : A → Type κ'} {r : Result A} → ((a : A) → P a → Q a) → Reads P r → Reads Q r
  Reads-map g (reads h) = reads (g _ h)
  Reads-map g rejects = rejects
