-- ===== src/Peg/Reported/Rules.antt =====
-- lib/endb_proc_macro/src/lib.rs: the errors that the function of a rule records.
use endb.Prelude.{
  ℕ, suc, ◌+◌, Bool, true, false, ◌≡◌, refl, length, last?, Bool-cases, inl, inr, ◌%◌,
}
use endb.Prelude.Text.{Str}
use endb.Cst.Event.{Event, close_node, open_node, ParseState, ParseResult}
use endb.Peg.Syntax.{Rule}
use endb.Peg.Leaf.{to_u32, push_event, u32_mod}
use endb.Peg.Machine.{open_rule, close_rule, close_event, hide_src, hide_open, closes}
use endb.Peg.Ensures.{Ensures, holds, Ensures-unwrap, Returns, Returns-any, Returns-bind, value}
use endb.Peg.Reported.Scan.{Scanned-open, Scanned-close}
use endb.Peg.Reported.Leaf.{Kept, Keeps, push_error-Scanned}

module _ (input : Str) where
  pub open_rule-Kept :
      {c : ℕ} (rule : Rule) (pos : ℕ) (st : ParseState)
      → Kept input c st
      → Returns (λ (o : ℕ × ParseState). Kept input (suc c) o.1) (open_rule rule pos st)
  unfolding open_rule
  open_rule-Kept rule pos st (t, k) = Returns-bind (Returns-any (to_u32 (length st.events))) λ i _.
      value (
        push_error-Scanned input (open_node rule.id pos false)
          (push_event (open_node rule.id pos false) st) t (Scanned-open input rule.id pos k))

  -- a close event, beside the errors as they were
  abbrev Closes : ℕ → ℕ → Event × ParseState → Type 0
  Closes c i (e, st) = ((hide : Bool) × (e ≡ close_node i hide)) × Kept input c st

  close_event-Kept :
      {c : ℕ} (hide : Bool) (i : ℕ) (st : ParseState)
      → Kept input c st
      → Returns (Closes c i) (close_event hide i st)
  unfolding close_event hide_src
  close_event-Kept false i st k = value ((false, refl), k)
  close_event-Kept true i st k = Returns-bind (Returns-any (last? st.events)) λ last _.
      elim (Bool-cases (closes ((i + 1) % u32_mod) last)) [
        | inr e ↦ rw e (value ((false, refl), k))
        | inl e ↦
            rw e (
              Returns-bind (Returns-any (hide_open i st.events))
                λ events _. value ((true, refl), k))
      ]

  pub close_rule-Kept :
      {c : ℕ} (rule : Rule) (i : ℕ) (r : ParseResult) (st : ParseState)
      → Kept input (suc c) st
      → Ensures (Keeps input c) (close_rule rule i r st)
  unfolding close_rule
  close_rule-Kept {c} rule i r st k =
      Ensures-unwrap _ (close_event-Kept rule.hide i st k) λ (e, st') ((hide, q), (t, s)).
        holds
          (push_error-Scanned input e (push_event e st') t (rw q (Scanned-close input i hide s)))
