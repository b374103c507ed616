-- ===== src/Ffi/ParseSql/Replies.antt =====
-- lib/endb_lib/src/lib.rs, `endb_parse_sql_cst`: what a call comes to.
use endb.Prelude.{ℕ, true, false, some, List, ◌≡◌}
use endb.Prelude.Text.{Str}
use endb.Cst.Event.{ParseState, ParseErr, ok, err}
use endb.Cst.Errors.{ParseError, events_to_errors}
use endb.Cst.Forest.{Forest}
use endb.Cst.Report.Types.{ParseReport}
use endb.Cst.Report.Found.{Unicode}
use endb.Cst.Report.Groups.{Groups}
use endb.Cst.Report.Build.{parse_errors_to_report}
use endb.Cst.Report.Draw.{Rendered, Renderer, parse_report_to_string}
use endb.Peg.Outcome.{done, fault, panic, overflow}
use endb.Peg.Leaf.{Crates}
use endb.Sql.Parse.{sql_stmt_list, default_state}
use endb.Ffi.Callback.{without_nul}
use endb.Ffi.ParseSql.{Reply, calls, on_error, panics, tree_calls}

-- What a call may come to.
pub data Replies (lib : Crates) (render : Renderer) (u : Unicode) (iter : Groups → Groups)
    (filename input : Str) (fuel : ℕ) : Reply → Type 0 where
  built :
      (pos : ℕ) (st : ParseState)
      → sql_stmt_list lib fuel input 0 (default_state false) ≡ done (ok pos) st
      → (f : Forest 0 st.events)
      → Replies lib render u iter filename input fuel (calls (tree_calls f))
  reported :
      (e : ParseErr) (st : ParseState) (errors : List ParseError) (report : ParseReport)
      (text : Str)
      → sql_stmt_list lib fuel input 0 (default_state true) ≡ done (err e) st
      → events_to_errors st.errors ≡ some errors
      → parse_errors_to_report u iter filename input errors ≡ some report
      → parse_report_to_string render report ≡ Rendered.ok text
      → without_nul text ≡ true
      → Replies lib render u iter filename input fuel (on_error text)
  nul_in_report :
      (report : ParseReport) (text : Str)
      → parse_report_to_string render report ≡ Rendered.ok text
      → without_nul text ≡ false
      → Replies lib render u iter filename input fuel (panics panic)
  not_drawn :
      (report : ParseReport) (e : Str)
      → parse_report_to_string render report ≡ Rendered.err e
      → Replies lib render u iter filename input fuel (panics panic)
  too_many_events :
      sql_stmt_list lib fuel input 0 (default_state true) ≡ fault overflow
      → Replies lib render u iter filename input fuel (panics overflow)
