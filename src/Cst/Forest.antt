-- ===== src/Cst/Forest.antt =====
-- Well-nested event sequences: what a parse appends to its events and to its errors.
use endb.Prelude.{
  ℕ, suc, ◌+◌, String, Bool, false, List, [], ◌∷◌, ◌++◌, ◌≡◌, append_assoc, arith, length,
  length-append, subst,
}
use endb.Cst.Event.{Event, open_node, close_node, literal, pattern, error, ParseErrorDescriptor}

-- Nodes and tokens, the first event at index `n`: each `Open` is closed by a `Close` that names
-- its index and carries the same `hide`.
pub data Forest : ℕ → List Event → Type 0 where
  nil : {n : ℕ} → Forest n []
  token :
      {n : ℕ} {l : String} {a b : ℕ} {rest : List Event}
      → Forest (suc n) rest
      → Forest n (literal l a b ∷ rest)
  regex_token :
      {n : ℕ} {a b : ℕ} {rest : List Event} → Forest (suc n) rest → Forest n (pattern a b ∷ rest)
  node :
      {n m : ℕ} {l : String} {p : ℕ} {h : Bool} {body rest : List Event}
      → Forest (suc n) body
      → m ≡ n + (2 + length body)
      → Forest m rest
      → Forest n (open_node l p h ∷ (body ++ close_node n h ∷ rest))

pub Forest-append :
    {n : ℕ} {xs : List Event} (ys : List Event)
    → Forest n xs
    → Forest (n + length xs) ys
    → Forest n (xs ++ ys)
Forest-append {n} ys nil g = subst (λ k. Forest k ys) (omega arith) g
Forest-append {n} ys (token f) g =
    token (Forest-append ys f (subst (λ k. Forest k ys) (omega arith) g))
Forest-append {n} ys (regex_token f) g =
    regex_token (Forest-append ys f (subst (λ k. Forest k ys) (omega arith) g))
Forest-append {n} ys (node {m} {h} {body} {rest} fb e fr) g =
    rw (append_assoc body (close_node n h ∷ rest) ys) (
      node fb e (
        Forest-append ys fr
          (subst (λ k. Forest k ys) (omega (arith, length-append body (close_node n h ∷ rest))) g)))

-- Nodes and errors, as a tracked parse appends them to its errors: the `Open` is never hidden.
pub data Trace : List Event → Type 0 where
  nil : Trace []
  failure :
      {a b : ℕ} {d : ParseErrorDescriptor} {rest : List Event}
      → Trace rest
      → Trace (error a b d ∷ rest)
  node :
      {l : String} {p : ℕ} (i : ℕ) (h : Bool) {body rest : List Event}
      → Trace body
      → Trace rest
      → Trace (open_node l p false ∷ (body ++ close_node i h ∷ rest))

pub Trace-append : {xs ys : List Event} → Trace xs → Trace ys → Trace (xs ++ ys)
Trace-append nil g = g
Trace-append (failure t) g = failure (Trace-append t g)
Trace-append {ys} (node i h {body} {rest} tb tr) g =
    rw (append_assoc body (close_node i h ∷ rest) ys) (node i h tb (Trace-append tr g))
