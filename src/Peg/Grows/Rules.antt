-- ===== src/Peg/Grows/Rules.antt =====
-- A rule: the node that it opens and closes around what its body appends.
use endb.Prelude.{
  ℕ, suc, ◌+◌, ◌%◌, String, Bool, true, false, some, List, [], ◌∷◌, ◌++◌, ◌≡◌, ◌∙◌, sym, ap, subst,
  refl, arith, length, last?, Bool-cases, append_assoc, length-append, get_elem?-append, set-append,
  set, last?-append, inl, inr, if◌then◌else◌,
}
use endb.Cst.Event.{Event, open_node, close_node, ParseState, ParseResult}
use endb.Cst.Forest.{Forest, Trace}
use endb.Peg.Syntax.{Rule}
use endb.Peg.Outcome.{done}
use endb.Peg.Leaf.{push_event, push_error, to_u32, u32_mod}
use endb.Peg.Machine.{open_rule, close_rule, close_event, hide_src, hide_open, closes}
use endb.Peg.Ensures.{
  Ensures, holds, Ensures-unwrap, Returns, Returns-any, Returns-bind, Returns-some, value,
}
use endb.Peg.Grows.Steps.{Grows}

push_error_tracked :
    (e : Event) (st : ParseState)
    → st.track_errors ≡ true
    → push_error e st ≡ record st { errors = st.errors ++ e ∷ [] }
push_error_tracked e st t = ground arith

push_error_untracked :
    (e : Event) (st : ParseState) → st.track_errors ≡ false → push_error e st ≡ st
push_error_untracked e st t = ground arith

pub to_u32_eq : {n m : ℕ} → to_u32 n ≡ some m → m ≡ n
unfolding to_u32
to_u32_eq e = ground arith

-- `st'` stands inside the node of `rule` that was opened in `st`.
record Inside (id : String) (pos : ℕ) (hide : Bool) (st st' : ParseState) : Type 0 where
  body : List Event
  error_body : List Event
  events_eq : st'.events ≡ st.events ++ open_node id pos hide ∷ body
  errors_eq :
      st'.errors
      ≡ st.errors ++ (if st.track_errors then open_node id pos false ∷ error_body else [])
  forest : Forest (suc (length st.events)) body
  trace : Trace error_body
  tracking : st'.track_errors ≡ st.track_errors

opened-Inside :
    (id : String) (pos : ℕ) (st : ParseState) {st' : ParseState}
    → Grows (push_error (open_node id pos false) (push_event (open_node id pos false) st)) st'
    → Inside id pos false st st'
opened-Inside id pos st {st'} g = elim (Bool-cases st.track_errors) [
  | inl t ↦
      let o = open_node id pos false in
      let h = subst (λ s. Grows s st') (push_error_tracked o (push_event o st) t) g in
      record {
        body = h.new_events;
        error_body = h.new_errors;
        events_eq = h.events_eq ∙ append_assoc st.events (o ∷ []) h.new_events;
        errors_eq = rw t (h.errors_eq ∙ append_assoc st.errors (o ∷ []) h.new_errors);
        forest =
            subst (λ k. Forest k h.new_events) (omega (arith, length-append st.events (o ∷ [])))
              h.forest;
        trace = h.trace;
        tracking = h.tracking;
      }
  | inr t ↦
      let o = open_node id pos false in
      let h = subst (λ s. Grows s st') (push_error_untracked o (push_event o st) t) g in
      record {
        body = h.new_events;
        error_body = [];
        events_eq = h.events_eq ∙ append_assoc st.events (o ∷ []) h.new_events;
        errors_eq = rw t (h.errors_eq ∙ ap (λ l. st.errors ++ l) (h.untracked t));
        forest =
            subst (λ k. Forest k h.new_events) (omega (arith, length-append st.events (o ∷ [])))
              h.forest;
        trace = Trace.nil;
        tracking = h.tracking;
      }
]

closed-Grows :
    {id : String} {pos : ℕ} {hide : Bool} {st st' : ParseState}
    → Inside id pos hide st st'
    → let c = close_node (length st.events) hide in Grows st (push_error c (push_event c st'))
closed-Grows {id} {pos} {hide} {st} {st'} i = elim (Bool-cases st.track_errors) [
  | inl t ↦
      let c = close_node (length st.events) hide in
      let t' : st'.track_errors ≡ true = i.tracking ∙ t in
      let e : st'.errors ≡ st.errors ++ open_node id pos false ∷ i.error_body =
        i.errors_eq
        ∙ ap (λ b. st.errors ++ (if b then open_node id pos false ∷ i.error_body else [])) t in
      subst (λ s. Grows st s) (sym (push_error_tracked c (push_event c st') t'))
        (record {
          new_events = open_node id pos hide ∷ (i.body ++ c ∷ []);
          new_errors = open_node id pos false ∷ (i.error_body ++ c ∷ []);
          events_eq =
              ap (λ l. l ++ c ∷ []) i.events_eq
              ∙ append_assoc st.events (open_node id pos hide ∷ i.body) (c ∷ []);
          errors_eq =
              ap (λ l. l ++ c ∷ []) e
              ∙ append_assoc st.errors (open_node id pos false ∷ i.error_body) (c ∷ []);
          forest = Forest.node i.forest refl Forest.nil;
          trace = Trace.node _ _ i.trace Trace.nil;
          tracking = i.tracking;
          untracked = λ u. cc;
        })
  | inr t ↦
      let c = close_node (length st.events) hide in
      let t' : st'.track_errors ≡ false = i.tracking ∙ t in
      let e : st'.errors ≡ st.errors ++ [] =
        i.errors_eq
        ∙ ap (λ b. st.errors ++ (if b then open_node id pos false ∷ i.error_body else [])) t in
      subst (λ s. Grows st s) (sym (push_error_untracked c (push_event c st') t'))
        (record {
          new_events = open_node id pos hide ∷ (i.body ++ c ∷ []);
          new_errors = [];
          events_eq =
              ap (λ l. l ++ c ∷ []) i.events_eq
              ∙ append_assoc st.events (open_node id pos hide ∷ i.body) (c ∷ []);
          errors_eq = e;
          forest = Forest.node i.forest refl Forest.nil;
          trace = Trace.nil;
          tracking = i.tracking;
          untracked = λ u. refl;
        })
]

hide_open-Returns :
    (id : String) (pos : ℕ) (E body : List Event) {events : List Event}
    → events ≡ E ++ open_node id pos false ∷ body
    → Returns (λ r. r ≡ E ++ open_node id pos true ∷ body) (hide_open (length E) events)
unfolding hide_open
hide_open-Returns id pos E body e =
    rw (e, get_elem?-append E (open_node id pos false) body)
      (value (set-append E (open_node id pos false) (open_node id pos true) body))

-- what `close_event` gives: the close of this node, and the state inside it
abbrev ClosesInside : String → ℕ → ParseState → Event × ParseState → Type 0
ClosesInside id pos st p =
    (hide : Bool) × (p.0 ≡ close_node (length st.events) hide) × Inside id pos hide st p.1

close_event-Returns :
    (hide : Bool) (id : String) (pos : ℕ) (st : ParseState) {st' : ParseState}
    → Inside id pos false st st'
    → Returns (ClosesInside id pos st) (close_event hide (length st.events) st')
unfolding close_event hide_src
close_event-Returns false id pos st i = value (false, refl, i)
close_event-Returns true id pos st {st'} i = Returns-bind (Returns-any (last? st'.events)) λ last _.
    elim (Bool-cases (closes ((length st.events + 1) % u32_mod) last)) [
      | inl e ↦ rw e (
          Returns-bind (hide_open-Returns id pos st.events i.body i.events_eq) λ events eq. value (
            true,
            refl,
            record {
              body = i.body;
              error_body = i.error_body;
              events_eq = eq;
              errors_eq = i.errors_eq;
              forest = i.forest;
              trace = i.trace;
              tracking = i.tracking;
            },
          ))
      | inr e ↦ rw e (value (false, refl, i))
    ]

close_rule-Grows :
    (rule : Rule) (pos : ℕ) (st : ParseState) (r : ParseResult) {st' : ParseState}
    → Inside rule.id pos false st st'
    → Ensures (λ _. Grows st) (close_rule rule (length st.events) r st')
unfolding close_rule
close_rule-Grows rule pos st r i =
    Ensures-unwrap _ (close_event-Returns rule.hide rule.id pos st i)
      λ (e, st₁) (hide, eq, i'). rw eq (holds (closed-Grows i'))

open_rule_opens :
    (rule : Rule) (pos : ℕ) (st : ParseState)
    → let o = open_node rule.id pos false in
      Returns
        (λ p. (p.0 ≡ length st.events) × (p.1 ≡ push_error o (push_event o st)))
        (open_rule rule pos st)
unfolding open_rule
open_rule_opens rule pos st =
    Returns-bind (Returns-any (to_u32 (length st.events))) λ i e. value (to_u32_eq e, refl)

pub open_rule-close_rule-Grows :
    (rule : Rule) (pos : ℕ) (st : ParseState) {open_idx : ℕ} {opened : ParseState}
    → open_rule rule pos st ≡ some (open_idx, opened)
    → (r : ParseResult) {st' : ParseState} → Grows opened st'
    → Ensures (λ _. Grows st) (close_rule rule open_idx r st')
open_rule-close_rule-Grows rule pos st e r {st'} g =
    let opens = Returns-some (open_rule_opens rule pos st) e in
    rw opens.0 (
      close_rule-Grows rule pos st r
        (opened-Inside rule.id pos st (subst (λ s. Grows s st') opens.1 g)))

hide_open-some :
    (id : String) (pos : ℕ) (E body : List Event) {events : List Event}
    → events ≡ E ++ open_node id pos false ∷ body
    → (r : List Event) × (hide_open (length E) events ≡ some r)
unfolding hide_open
hide_open-some id pos E body {events} e = (
  set events (length E) (open_node id pos true),
  rw (e, get_elem?-append E (open_node id pos false) body),
)

close_event-some :
    (hide : Bool) (id : String) (pos : ℕ) (st : ParseState) {st' : ParseState}
    → Inside id pos false st st'
    → (p : Event × ParseState) × (close_event hide (length st.events) st' ≡ some p)
unfolding close_event hide_src
close_event-some false id pos st {st'} i = ((close_node (length st.events) false, st'), refl)
close_event-some true id pos st {st'} i =
    let (last, e) = last?-append st.events (open_node id pos false) i.body in
    let l : last? st'.events ≡ some last = ap last? i.events_eq ∙ e in
    elim (Bool-cases (closes ((length st.events + 1) % u32_mod) last)) [
      | inl c ↦
          let (events, h) = hide_open-some id pos st.events i.body i.events_eq in
          ((close_node (length st.events) true, record st' { events = events }), rw (l, c, h))
      | inr c ↦ ((close_node (length st.events) false, st'), rw (l, c))
    ]

close_rule-returns :
    (rule : Rule) (pos : ℕ) (st : ParseState) (r : ParseResult) {st' : ParseState}
    → Inside rule.id pos false st st'
    → (st₁ : ParseState) × (close_rule rule (length st.events) r st' ≡ done r st₁)
unfolding close_rule
close_rule-returns rule pos st r i =
    let ((e, st₁), h) = close_event-some rule.hide rule.id pos st i in
    (push_error e (push_event e st₁), rw h)

-- The end of a rule returns what the body returned: its indexing of the events never panics.
pub open_rule-close_rule-returns :
    (rule : Rule) (pos : ℕ) (st : ParseState) {open_idx : ℕ} {opened : ParseState}
    → open_rule rule pos st ≡ some (open_idx, opened)
    → (r : ParseResult) {st' : ParseState} → Grows opened st'
    → (st₁ : ParseState) × (close_rule rule open_idx r st' ≡ done r st₁)
open_rule-close_rule-returns rule pos st e r {st'} g =
    let opens = Returns-some (open_rule_opens rule pos st) e in
    rw opens.0 (
      close_rule-returns rule pos st r
        (opened-Inside rule.id pos st (subst (λ s. Grows s st') opens.1 g)))
