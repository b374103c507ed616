-- ===== src/Sql/Sexp.antt =====
-- lib/endb_cst/src/lib.rs, `events_to_sexp`, on what lib/endb_cst/src/sql.rs parses.
use endb.Prelude.{
  ℕ, ◌≤◌, Bool, true, false, inl, inr, arith, Option-cases, some, List, [], ◌∷◌, ◌++◌, ◌≡◌, refl,
}
use endb.Prelude.Text.{Str}
use endb.Prelude.Slices.{At, At-zero, slice-some}
use endb.Cst.Event.{Event, open_node, close_node, ParseState, ParseResult}
use endb.Cst.Sexp.{token_text, events_to_sexp_into, events_to_sexp}
use endb.Peg.Syntax.{non_terminal}
use endb.Peg.Outcome.{done}
use endb.Peg.Leaf.{Crates}
use endb.Peg.Bounds.{Within, run_in_bounds}
use endb.Peg.Progress.{RegexLaws}
use endb.Sql.Grammar.{sql_grammar}
use endb.Sql.Ranks.{sql_analysis}
use endb.Sql.Parse.{sql_stmt_list, default_state}

token_text-some :
    (src : Str) (a b : ℕ)
    → (a ≤ b) × At src a × At src b
    → (t : Str) × (token_text src a b ≡ some t)
unfolding token_text
token_text-some src a b (le, at, at') =
    let (v, e) = slice-some src a b le at at' in
    elim (Option-cases (token_text src a b)) [ inl n ↦ ground (arith, e, n) | inr found ↦ found ]

events_to_sexp_into-some :
    (src : Str) (es : List Event) (out : Str)
    → Within src es
    → (text : Str) × (events_to_sexp_into src out es ≡ some text)
unfolding events_to_sexp_into
events_to_sexp_into-some src [] out w = (out, refl)
events_to_sexp_into-some src (open_node l p true ∷ es) out (_, w) =
    events_to_sexp_into-some src es _ w
events_to_sexp_into-some src (open_node l p false ∷ es) out (_, w) =
    events_to_sexp_into-some src es _ w
events_to_sexp_into-some src (close_node i true ∷ es) out (_, w) =
    events_to_sexp_into-some src es _ w
events_to_sexp_into-some src (close_node i false ∷ es) out (_, w) =
    events_to_sexp_into-some src es _ w
events_to_sexp_into-some src (Event.error a b d ∷ es) out (_, w) =
    events_to_sexp_into-some src es _ w
events_to_sexp_into-some src (Event.literal l a b ∷ es) out (t, w) =
    let (text, e) = token_text-some src a b t in
    let (whole, e') = events_to_sexp_into-some src es (out ++ text) w in (whole, simp e e')
events_to_sexp_into-some src (Event.pattern a b ∷ es) out (t, w) =
    let (text, e) = token_text-some src a b t in
    let (whole, e') = events_to_sexp_into-some src es (out ++ text) w in (whole, simp e e')

-- Whenever the SQL parser returns, with success or with failure, what it leaves in the events is
-- printed as an S-expression without a panic, if the regular expressions keep the stated laws.
pub sql_events_to_sexp :
    (lib : Crates) (fuel : ℕ) (input : Str) (track_errors : Bool) (r : ParseResult)
    (st : ParseState)
    → RegexLaws lib sql_analysis
    → sql_stmt_list lib fuel input 0 (default_state track_errors) ≡ done r st
    → (text : Str) × (events_to_sexp input st.events ≡ some text)
unfolding sql_stmt_list events_to_sexp
sql_events_to_sexp lib fuel input track_errors r st laws e =
    events_to_sexp_into-some input st.events []
      (run_in_bounds lib sql_grammar sql_analysis input laws fuel (non_terminal "sql_stmt_list") 0
        (default_state track_errors) (At-zero input) tt e).1
