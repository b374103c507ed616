-- ===== src/Ffi/ParseSql/Meaning.antt =====
-- lib/endb_lib/src/lib.rs: what `endb_parse_sql_cst` calls back, against the meaning of the grammar.
use endb.Prelude.{ℕ, true, false, some, ◌≡◌, List}
use endb.Prelude.Text.{Str}
use endb.Cst.Event.{ParseState, ParseErr, ok, err}
use endb.Cst.Errors.{ParseError, events_to_errors}
use endb.Peg.Outcome.{done}
use endb.Peg.Leaf.{Crates}
use endb.Peg.Meaning.{Answer, matched, failed}
use endb.Sql.Parse.{sql_stmt_list, default_state}
use endb.Ffi.ParseSql.{Reply, calls, tree_calls, report_reply}
use endb.Cst.Forest.{Forest}
use endb.Cst.Report.Found.{Unicode}
use endb.Cst.Report.Groups.{Groups}
use endb.Cst.Report.Draw.{Renderer, parse_errors_to_string}

-- What a call may come to by what the grammar means: for a match the callbacks of the tree of its
-- events, for a failure what is made of the errors of the second parse.
pub data Fits (lib : Crates) (render : Renderer) (u : Unicode) (iter : Groups → Groups)
    (filename input : Str) (fuel : ℕ) : Answer → Reply → Type 0 where
  builds :
      {t : Str} (pos : ℕ) (st : ParseState)
      → sql_stmt_list lib fuel input 0 (default_state false) ≡ done (ok pos) st
      → (f : Forest 0 st.events)
      → Fits lib render u iter filename input fuel (matched t) (calls (tree_calls f))
  reports :
      {e x : ParseErr} (st : ParseState) (errors : List ParseError)
      → sql_stmt_list lib fuel input 0 (default_state true) ≡ done (err x) st
      → events_to_errors st.errors ≡ some errors
      → Fits lib render u iter filename input fuel
          (failed e)
          (report_reply (parse_errors_to_string render u iter filename input errors))
