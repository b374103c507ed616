-- ===== src/Ffi/ParseSql/Calls.antt =====
-- lib/endb_lib/src/lib.rs, `endb_parse_sql_cst`: the callbacks of a successful parse.
use endb.Prelude.{
  ℕ, String, Bool, true, false, List, [], ◌∷◌, ◌++◌, ◌≡◌, ◌∙◌, sym, ap, refl, append_assoc,
  append-nil,
}
use mathlib.Core.List.{reverse, reverse-append}
use endb.Cst.Event.{Event, open_node, close_node}
use endb.Cst.Forest.{Forest}

pub data CstCall : Type 0 where
  on_open : String → CstCall
  on_close : CstCall
  on_literal : String → ℕ → ℕ → CstCall
  on_pattern : ℕ → ℕ → CstCall

-- the body of the loop
unfoldable pub call_of : Event → List CstCall
call_of (open_node label pos false) = on_open label ∷ []
call_of (close_node open_idx false) = on_close ∷ []
call_of (Event.literal literal a b) = on_literal literal a b ∷ []
call_of (Event.pattern a b) = on_pattern a b ∷ []
call_of _ = []

unfoldable pub calls_of : List Event → List CstCall
unfolding call_of
calls_of [] = []
calls_of (e ∷ es) = call_of e ++ calls_of es

-- `for e in state.events.iter().rev()`
unfoldable pub cst_calls : List Event → List CstCall
unfolding calls_of
cst_calls events = calls_of (reverse events)

calls_of-append : (xs ys : List Event) → calls_of (xs ++ ys) ≡ calls_of xs ++ calls_of ys
unfolding calls_of
calls_of-append [] ys = refl
calls_of-append (x ∷ xs) ys =
    ap (λ l. call_of x ++ l) (calls_of-append xs ys)
    ∙ sym (append_assoc (call_of x) (calls_of xs) (calls_of ys))

-- the calls of an event sequence, in the order of the loop
cst_calls-append : (xs ys : List Event) → cst_calls (xs ++ ys) ≡ cst_calls ys ++ cst_calls xs
unfolding cst_calls
cst_calls-append xs ys = rw (reverse-append xs ys) (calls_of-append (reverse ys) (reverse xs))

cst_calls-cons : (x : Event) (xs : List Event) → cst_calls (x ∷ xs) ≡ cst_calls xs ++ call_of x
unfolding cst_calls
cst_calls-cons x xs =
    cst_calls-append (x ∷ []) xs ∙ ap (λ l. cst_calls xs ++ l) (append-nil (call_of x))

cst_calls-node :
    (l : String) (p n : ℕ) (h : Bool) (body rest : List Event)
    → cst_calls (open_node l p h ∷ (body ++ close_node n h ∷ rest))
      ≡ ((cst_calls rest ++ call_of (close_node n h)) ++ cst_calls body)
        ++ call_of (open_node l p h)
cst_calls-node l p n h body rest =
    cst_calls-cons (open_node l p h) (body ++ close_node n h ∷ rest)
    ∙ ap (λ t. t ++ call_of (open_node l p h))
        (cst_calls-append body (close_node n h ∷ rest)
          ∙ ap (λ t. t ++ cst_calls body) (cst_calls-cons (close_node n h) rest))

-- The calls for a tree, from its structure and from its end: a node is closed, filled and opened, and
-- a hidden node is its children.
abbrev pub node_calls : Bool → String → List CstCall → List CstCall
node_calls true l body = body
node_calls false l body = on_close ∷ (body ++ on_open l ∷ [])

abbrev pub tree_calls : {n : ℕ} {es : List Event} → Forest n es → List CstCall
tree_calls Forest.nil = []
tree_calls (Forest.token {l} {a} {b} f) = tree_calls f ++ on_literal l a b ∷ []
tree_calls (Forest.regex_token {a} {b} f) = tree_calls f ++ on_pattern a b ∷ []
tree_calls (Forest.node {l} {h} fb e fr) = tree_calls fr ++ node_calls h l (tree_calls fb)

called_node :
    (l : String) (h : Bool) (b r : List CstCall) (p n : ℕ)
    → (((r ++ call_of (close_node n h)) ++ b) ++ call_of (open_node l p h)) ≡ r ++ node_calls h l b
unfolding call_of
called_node l false b r p n = simp append_assoc refl
called_node l true b r p n = simp append-nil refl

-- The callbacks of a well-nested event sequence are exactly those of its tree, from its end: each
-- token makes its call, each node an `on_close`, the calls of its children and then its own `on_open`,
-- and a hidden node makes no call of its own.
pub cst_calls-tree_calls : {n : ℕ} {es : List Event} (f : Forest n es) → cst_calls es ≡ tree_calls f
unfolding cst_calls
cst_calls-tree_calls Forest.nil = refl
cst_calls-tree_calls (Forest.token {l} {a} {b} {rest} f) =
    cst_calls-cons (Event.literal l a b) rest
    ∙ ap (λ cs. cs ++ call_of (Event.literal l a b)) (cst_calls-tree_calls f)
cst_calls-tree_calls (Forest.regex_token {a} {b} {rest} f) =
    cst_calls-cons (Event.pattern a b) rest
    ∙ ap (λ cs. cs ++ call_of (Event.pattern a b)) (cst_calls-tree_calls f)
cst_calls-tree_calls (Forest.node {n} {l = l} {p = p} {h = h} {body = body} {rest = rest} fb e fr) =
    cst_calls-node l p n h body rest
    ∙ rw (cst_calls-tree_calls fb, cst_calls-tree_calls fr) (called_node l h _ _ p n)
