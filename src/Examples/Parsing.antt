-- ===== src/Examples/Parsing.antt =====
-- Runs of the SQL parser over the stand-in for `regex`, after lib/endb_cst/src/tests.rs.
use endb.Prelude.{String, Option, none, some, true, ℕ, ◌≡◌, refl, List, [], ◌∷◌, map}
use endb.Prelude.Text.{Str, codes, len_utf8}
use endb.Peg.Syntax.{find_rule}
use endb.Peg.Leaf.{run_pattern, run_literal}
use endb.Peg.Machine.{run, open_rule, close_rule, end_neg}
use endb.Ffi.ParseSql.{
  Parsed, tree, failed, parse_or_errors, CstCall, on_open, on_close, on_literal, on_pattern,
}
use endb.Cst.Event.{ok}
use endb.Cst.Sexp.{events_to_sexp}
use endb.Peg.Outcome.{Outcome, done}
use endb.Sql.Parse.{sql_stmt_list, default_state}
use endb.Examples.Regex.{toy_crates, find}

abbrev calls_or_nil : Parsed → List CstCall
calls_or_nil (tree calls) = calls
calls_or_nil _ = []

abbrev starts_or_nil : Parsed → List ℕ
starts_or_nil (failed errors) = map (λ e. e.start) errors
starts_or_nil _ = []

-- SELECT foo, the tree of the test `identifier_expr`, built from its end
select_foo :
    calls_or_nil (parse_or_errors toy_crates 200 (codes "SELECT foo"))
    ≡ on_close
      ∷ on_close
      ∷ on_close
      ∷ on_close
      ∷ on_close
      ∷ on_close
      ∷ on_close
      ∷ on_close
      ∷ on_pattern 7 10
      ∷ on_open "ident"
      ∷ on_open "column_name"
      ∷ on_open "column_reference"
      ∷ on_open "result_column"
      ∷ on_open "result_expr_list"
      ∷ on_literal "SELECT" 0 6
      ∷ on_open "select_core"
      ∷ on_open "select_stmt"
      ∷ on_open "sql_stmt_list"
      ∷ []
unfolding parse_or_errors find run find_rule open_rule run_pattern run_literal len_utf8 close_rule
    end_neg
select_foo = refl

-- SELECT foo FROM: every error that is reported is at the end of the input
select_from :
    starts_or_nil (parse_or_errors toy_crates 400 (codes "SELECT foo FROM"))
    ≡ 15 ∷ 15 ∷ 15 ∷ 15 ∷ 15 ∷ 15 ∷ 15 ∷ []
unfolding parse_or_errors find run find_rule open_rule run_pattern run_literal len_utf8 close_rule
    end_neg
select_from = refl

-- the snapshots of the tests `identifier_expr`: the parse and its expression
abbrev sexp_of : String → Outcome → Option Str
sexp_of sql (done (ok pos) st) = events_to_sexp (codes sql) st.events
sexp_of sql _ = none

foo_snapshot :
    sexp_of "SELECT foo" (sql_stmt_list toy_crates 200 (codes "SELECT foo") 0 (default_state true))
    ≡ some (
        codes
          "(:|sql_stmt_list| (:|select_stmt| (:|select_core| (\"SELECT\" 0 6) (:|result_expr_list| (:|result_column| (:|column_reference| (:|column_name| (:|ident| (\"foo\" 7 10)))))))))")
unfolding sql_stmt_list events_to_sexp run find_rule open_rule close_rule run_literal run_pattern
    end_neg len_utf8 find
foo_snapshot = refl

column_snapshot :
    sexp_of "SELECT x.y" (sql_stmt_list toy_crates 200 (codes "SELECT x.y") 0 (default_state true))
    ≡ some (
        codes
          "(:|sql_stmt_list| (:|select_stmt| (:|select_core| (\"SELECT\" 0 6) (:|result_expr_list| (:|result_column| (:|column_reference| (:|table_name| (:|ident| (\"x\" 7 8))) (\".\" 8 9) (:|column_name| (:|ident| (\"y\" 9 10)))))))))")
unfolding sql_stmt_list events_to_sexp run find_rule open_rule close_rule run_literal run_pattern
    end_neg len_utf8 find
column_snapshot = refl
