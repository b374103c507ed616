-- ===== src/Cst/Sexp/Laws.antt =====
-- lib/endb_cst/src/lib.rs, `events_to_sexp`: the expression of a tree, and of the events that stand for it.
use endb.Prelude.{
  ℕ, String, Bool, true, false, Option, none, some, List, [], ◌∷◌, ◌++◌, ◌>>=◌, ◌≡◌, refl, sym, ap,
  ◌∙◌, inl, inr, Option-cases, append_assoc, append-nil,
}
use endb.Prelude.Text.{Str, codes}
use endb.Cst.Event.{Event, open_node, close_node}
use endb.Cst.Forest.{Forest, nil, token, regex_token, node}
use endb.Cst.Sexp.{token_text, open_text, events_to_sexp_into, events_to_sexp}

-- a node around the text of its children: a hidden one is its children
abbrev pub wrap : Bool → String → Str → Str
wrap true label body = body
wrap false label body = codes " " ++ (open_text label ++ (body ++ codes ")"))

-- A tree printed from its structure, each item after a space; `none` where a token is no slice.
abbrev pub print : Str → {n : ℕ} {es : List Event} → Forest n es → Option Str
print src nil = some []
print src (token {a} {b} f) = do text ← token_text src a b; rest ← print src f; some (text ++ rest)
print src (regex_token {a} {b} f) = do
  text ← token_text src a b
  rest ← print src f
  some (text ++ rest)
print src (node {l} {h} fb e fr) = do
  body ← print src fb
  rest ← print src fr
  some (wrap h l body ++ rest)

-- what is printed after `out`, which is not empty
abbrev after : Str → List Event → ℕ → Str → Option Str → Option Str
after src more c out o = do t ← o; events_to_sexp_into src (c ∷ (out ++ t)) more

module _ (src : Str) (more : List Event) (c : ℕ) where
  after_assoc :
      (out t : Str) (o : Option Str)
      → after src more c (out ++ t) o ≡ after src more c out (do u ← o; some (t ++ u))
  after_assoc out t none = refl
  after_assoc out t (some u) = ap (λ s. events_to_sexp_into src (c ∷ s) more) (append_assoc out t u)

wrapped :
    (out : Str) (l : String) (t : Str)
    → ((((out ++ codes " ") ++ open_text l) ++ t) ++ codes ")") ≡ out ++ wrap false l t
wrapped out l t =
    append_assoc ((out ++ codes " ") ++ open_text l) t (codes ")")
    ∙ append_assoc (out ++ codes " ") (open_text l) (t ++ codes ")")
    ∙ append_assoc out (codes " ") (open_text l ++ (t ++ codes ")"))

sexp-print :
    (src : Str) {n : ℕ} {es : List Event} (f : Forest n es) (more : List Event) (c : ℕ) (out : Str)
    → events_to_sexp_into src (c ∷ out) (es ++ more) ≡ after src more c out (print src f)
unfolding events_to_sexp_into
sexp-print src nil more c out =
    ap (λ s. events_to_sexp_into src (c ∷ s) more) (sym (append-nil out))
sexp-print src (token {a} {b} f) more c out = elim (Option-cases (token_text src a b)) [
  | inl e ↦ simp e refl
  | inr (text, e) ↦
      simp e (sexp-print src f more c (out ++ text) ∙ after_assoc src more c out text _)
]
sexp-print src (regex_token {a} {b} f) more c out = elim (Option-cases (token_text src a b)) [
  | inl e ↦ simp e refl
  | inr (text, e) ↦
      simp e (sexp-print src f more c (out ++ text) ∙ after_assoc src more c out text _)
]
sexp-print src (node {n} {l} {p} {h = true} {body} {rest} fb e fr) more c out =
    ap (events_to_sexp_into src (c ∷ out)) (append_assoc body (close_node n true ∷ rest) more)
    ∙ sexp-print src fb (close_node n true ∷ (rest ++ more)) c out
    ∙ elim (Option-cases (print src fb)) [
      | inl e ↦ simp e refl
      | inr (t, e) ↦ simp e (sexp-print src fr more c (out ++ t) ∙ after_assoc src more c out t _)
    ]
sexp-print src (node {n} {l} {p} {h = false} {body} {rest} fb e fr) more c out =
    ap (events_to_sexp_into src (c ∷ ((out ++ codes " ") ++ open_text l)))
      (append_assoc body (close_node n false ∷ rest) more)
    ∙ sexp-print src fb (close_node n false ∷ (rest ++ more)) c ((out ++ codes " ") ++ open_text l)
    ∙ elim (Option-cases (print src fb)) [
      | inl e ↦ simp e refl
      | inr (t, e) ↦ simp e (
          ap (λ s. events_to_sexp_into src (c ∷ s) (rest ++ more)) (wrapped out l t)
          ∙ sexp-print src fr more c (out ++ wrap false l t)
          ∙ after_assoc src more c out (wrap false l t) (print src fr))
    ]

-- The expression of a node is its label and then its children, printed from the structure of the
-- tree: the nested nodes and the tokens in their order, the hidden nodes replaced by their children.
-- It is `none` just where a token is no slice of the source.
pub events_to_sexp-print :
    (src : Str) (label : String) (pos i : ℕ) {n : ℕ} {body : List Event} (f : Forest n body)
    → events_to_sexp src (open_node label pos false ∷ (body ++ close_node i false ∷ []))
      ≡ (do t ← print src f; some (open_text label ++ (t ++ codes ")")))
unfolding events_to_sexp
events_to_sexp-print src label pos i f =
    sexp-print src f (close_node i false ∷ []) 40 (codes ":|" ++ (codes label ++ codes "|"))
    ∙ elim (Option-cases (print src f)) [
      | inl e ↦ simp e refl
      | inr (t, e) ↦ simp e (ap some (append_assoc (open_text label) t (codes ")")))
    ]
