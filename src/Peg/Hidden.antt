-- ===== src/Peg/Hidden.antt =====
-- lib/endb_proc_macro/src/lib.rs, `hide_src`: which nodes a hidden rule hides.
use endb.Prelude.{
  ℕ, zero, suc, ◌+◌, ◌<◌, ◌%◌, String, Bool, true, false, some, List, [], ◌∷◌, ◌++◌, ◌≡◌, ◌⊎◌, inl,
  inr, refl, sym, ap, ◌∙◌, subst, arith, length, length-append, append_assoc, last?, push,
  get_elem?-append, set-append,
}
use mathlib.Core.Option.{some-injective}
use mathlib.Core.Bool.{false≢true}
use mathlib.Core.Path.{ap₂}
use endb.Prelude.Text.{Str}
use endb.Cst.Event.{Event, open_node, close_node, ParseState, ParseResult}
use endb.Cst.Forest.{Forest, nil, token, regex_token, node}
use endb.Peg.Syntax.{Rule, Grammar}
use endb.Peg.Outcome.{done, overflow}
use endb.Peg.Leaf.{Crates, u32_mod, to_u32, push_event, push_error}
use endb.Peg.Machine.{run_rule, open_rule, close_rule, close_event, hide_src, hide_open, closes}
use endb.Peg.Grows.{run-Ensures}
use endb.Peg.Bounds.{to_u32_same}
use endb.Peg.Ensures.{
  Ensures, holds, Ensures-done, Ensures-follow, Ensures-unwrap, Ensures-or_fault, Returns,
  Returns-any, Returns-bind, value,
}

-- one node, which opens at `k`, and nothing else
abbrev pub SingleNode : ℕ → List Event → Type 0
SingleNode k events =
    (l : String) × (p : ℕ) × (h : Bool) × (inner : List Event) × (events
      ≡ open_node l p h ∷ (inner ++ close_node k h ∷ []))

last?-skip : (xs : List Event) (y : Event) (ys : List Event) → last? (xs ++ y ∷ ys) ≡ last? (y ∷ ys)
last?-skip [] y ys = refl
last?-skip (x ∷ []) y ys = refl
last?-skip (x ∷ x' ∷ xs) y ys = last?-skip (x' ∷ xs) y ys

-- what comes after an index does not close it
closes-later :
    {m : ℕ} {es : List Event} (k : ℕ) (x last : Event)
    → Forest m es
    → k < m
    → closes k x ≡ false
    → last? (x ∷ es) ≡ some last
    → closes k last ≡ false
closes-later k x last nil lt e h = subst (λ y. closes k y ≡ false) (some-injective _ _ h) e
closes-later k x last (token {l} {a} {b} f) lt e h =
    closes-later k (Event.literal l a b) last f (omega arith) refl h
closes-later k x last (regex_token {a} {b} f) lt e h =
    closes-later k (Event.pattern a b) last f (omega arith) refl h
closes-later k x last (node {n} {l} {p} {h} {body} {rest} fb q fr) lt e at =
    closes-later k (close_node n h) last fr (omega arith) (ground (arith, lt))
      (sym (last?-skip (x ∷ open_node l p h ∷ body) (close_node n h) rest) ∙ at)

single_or_open :
    {k : ℕ} {body : List Event} (l : String) (p : ℕ)
    → Forest k body
    → SingleNode k body
      ⊎ ((last : Event) → last? (open_node l p false ∷ body) ≡ some last → closes k last ≡ false)
single_or_open {k} l p nil =
    inr λ last h. subst (λ y. closes k y ≡ false) (some-injective _ _ h) refl
single_or_open {k} l p (token {l = l'} {a} {b} f) =
    inr λ last h. closes-later k (Event.literal l' a b) last f (omega arith) refl h
single_or_open {k} l p (regex_token {a} {b} f) =
    inr λ last h. closes-later k (Event.pattern a b) last f (omega arith) refl h
single_or_open l p (node {l = l'} {p = p'} {h} {body} {rest = []} fb q fr) =
    inl (l', p', h, body, refl)
single_or_open l p (node {n} {l = l'} {p = p'} {h} {body} {rest = y ∷ ys} fb q fr) = inr λ last e.
    closes-later n (open_node l p false) last fr (omega arith) refl (
      sym (last?-skip (open_node l p false ∷ open_node l' p' h ∷ body) (close_node n h) (y ∷ ys))
      ∙ e)

SingleNode-closes :
    {k : ℕ} {body : List Event} (o : Event)
    → SingleNode k body
    → (last : Event) × (last? (o ∷ body) ≡ some last) × (closes k last ≡ true)
SingleNode-closes {k} o (l, p, h, inner, e) = (
  close_node k h,
  rw e (last?-skip (o ∷ open_node l p h ∷ inner) (close_node k h) []),
  ground arith,
)

-- the node that was opened at the end of `events` with `body` in it
abbrev pub node_of : Bool → List Event → String → ℕ → List Event → List Event
node_of hide events id pos body =
    events ++ open_node id pos hide ∷ (body ++ close_node (length events) hide ∷ [])

-- The node is hidden just when its only child is a node.
abbrev pub HiddenIfSingle : String → ℕ → ParseState → ParseState → Type 0
HiddenIfSingle id pos st st' =
    (body : List Event) × Forest (suc (length st.events)) body
    × ((SingleNode (suc (length st.events)) body
          × (st'.events ≡ node_of true st.events id pos body))
        ⊎ ((SingleNode (suc (length st.events)) body → ⊥)
            × (st'.events ≡ node_of false st.events id pos body)))

push_error_events : (e : Event) (st : ParseState) → (push_error e st).events ≡ st.events
push_error_events e st = ground arith

hide_open-node :
    (events : List Event) (id : String) (pos : ℕ) (body : List Event)
    → hide_open (length events) (events ++ open_node id pos false ∷ body)
      ≡ some (events ++ open_node id pos true ∷ body)
unfolding hide_open
hide_open-node events id pos body =
    rw (get_elem?-append events (open_node id pos false) body)
      (ap some (set-append events (open_node id pos false) (open_node id pos true) body))

module _ (id : String) (pos : ℕ) (st stb : ParseState) (body : List Event)
    (f : Forest (suc (length st.events)) body)
    (eq : stb.events ≡ st.events ++ open_node id pos false ∷ body)
    (small : length st.events + 1 < u32_mod) where
  node_of-push :
      (hide : Bool) {e : Event} {es : List Event}
      → e ≡ close_node (length st.events) hide
      → es ≡ st.events ++ open_node id pos hide ∷ body
      → push es e ≡ node_of hide st.events id pos body
  node_of-push hide q k =
      ap₂ push k q
      ∙ append_assoc st.events (open_node id pos hide ∷ body)
          (close_node (length st.events) hide ∷ [])

  -- what `hide_src` makes of the node
  abbrev Hides : Event × ParseState → Type 0
  Hides (e, st₂) =
      (SingleNode (suc (length st.events)) body
        × (e ≡ close_node (length st.events) true)
        × (st₂.events ≡ st.events ++ open_node id pos true ∷ body))
      ⊎ ((SingleNode (suc (length st.events)) body → ⊥)
          × (e ≡ close_node (length st.events) false)
          × (st₂.events ≡ st.events ++ open_node id pos false ∷ body))

  last?-body :
      {last : Event}
      → last? stb.events ≡ some last
      → last? (open_node id pos false ∷ body) ≡ some last
  last?-body h = sym (last?-skip st.events (open_node id pos false) body) ∙ sym (ap last? eq) ∙ h

  hide_src-Hides : Returns Hides (hide_src (length st.events) stb)
  unfolding hide_src
  hide_src-Hides = Returns-bind (Returns-any (last? stb.events)) λ last h.
      let m : (length st.events + 1) % u32_mod ≡ suc (length st.events) = omega arith in
      elim (single_or_open id pos f) [
        | inl s ↦
            let (last', h', c) = SingleNode-closes (open_node id pos false) s in
            let same : last' ≡ last = some-injective _ _ (sym h' ∙ last?-body h) in
            let c' : closes (suc (length st.events)) last ≡ true = rw same at c in
            let hidden =
              ap (hide_open (length st.events)) eq ∙ hide_open-node st.events id pos body in
            rw (m, c', hidden) (value (inl (s, refl, refl)))
        | inr several ↦
            let c = several last (last?-body h) in
            rw (m, c)
              (value (
                inr (
                  (λ s.
                      let (last', h', c') = SingleNode-closes (open_node id pos false) s in
                      let same : last' ≡ last = some-injective _ _ (sym h' ∙ last?-body h) in
                      absurd (
                        false≢true (sym c ∙ ap (closes (suc (length st.events))) (sym same) ∙ c'))),
                  refl,
                  eq,
                )))
      ]

  close_rule-Hidden :
      (rule : Rule) (r : ParseResult)
      → rule.hide ≡ true
      → Ensures (λ r' st'. HiddenIfSingle id pos st st') (close_rule rule (length st.events) r stb)
  unfolding close_rule close_event
  close_rule-Hidden rule r hide = rw hide (
      Ensures-unwrap _ hide_src-Hides λ (e, st₂) cases. holds (
        body,
        f,
        elim cases [
          | inl (s, q, k) ↦ inl (s, push_error_events e (push_event e st₂) ∙ node_of-push true q k)
          | inr (several, q, k) ↦
              inr (several, push_error_events e (push_event e st₂) ∙ node_of-push false q k)
        ],
      ))

-- the node of a rule is open
abbrev Opens : String → ℕ → ParseState → ℕ × ParseState → Type 0
Opens id pos st (i, opened) =
    (i ≡ length st.events) × (opened.events ≡ st.events ++ open_node id pos false ∷ [])

open_rule-Opens :
    (rule : Rule) (pos : ℕ) (st : ParseState)
    → Returns (Opens rule.id pos st) (open_rule rule pos st)
unfolding open_rule
open_rule-Opens rule pos st = Returns-bind (Returns-any (to_u32 (length st.events))) λ i h. value (
  to_u32_same (length st.events) h,
  push_error_events (open_node rule.id pos false) (push_event (open_node rule.id pos false) st),
)

module _ (lib : Crates) (g : Grammar) (input : Str) where
  -- When a hidden rule returns, it has appended one node to the events, and the node is hidden just
  -- when its only child is a node; there are fewer than 2^32 - 1 events before it.
  pub run_rule-Hidden :
      (f : ℕ) (rule : Rule) (pos : ℕ) (st : ParseState) {r : ParseResult} {st' : ParseState}
      → rule.hide ≡ true
      → length st.events + 1 < u32_mod
      → run_rule lib g input f rule pos st ≡ done r st'
      → HiddenIfSingle rule.id pos st st'
  unfolding run_rule
  run_rule-Hidden zero rule pos st hide small e = cc
  run_rule-Hidden (suc f) rule pos st hide small e =
      Ensures-done {P = λ r' st''. HiddenIfSingle rule.id pos st st''}
        (Ensures-or_fault overflow _ (open_rule-Opens rule pos st) λ (i, opened) (q, o).
          Ensures-follow (run-Ensures lib g input f rule.body pos opened) λ r stb grows.
            let next : length opened.events ≡ suc (length st.events) =
              ap length o
              ∙ length-append st.events (open_node rule.id pos false ∷ [])
              ∙ omega arith in
            let forest = subst (λ k. Forest k grows.new_events) next grows.forest in
            let inside =
              grows.events_eq
              ∙ ap (λ es. es ++ grows.new_events) o
              ∙ append_assoc st.events (open_node rule.id pos false ∷ []) grows.new_events in
            rw q (
              close_rule-Hidden rule.id pos st stb grows.new_events forest inside small rule r
                hide))
        e
