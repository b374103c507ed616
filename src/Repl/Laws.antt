-- ===== src/Repl/Laws.antt =====
-- lib/endb_cst/examples/sql.rs: every line is answered.
use endb.Prelude.{ℕ, ◌<◌, ◌≤◌, true, false, some, List, [], ◌∷◌, ◌≡◌}
use endb.Prelude.Text.{Str, byte_len, codes}
use endb.Cst.Event.{ParseState, ParseErr, ok, err}
use endb.Cst.Errors.{ParseError, events_to_errors}
use endb.Cst.Sexp.{events_to_sexp}
use endb.Cst.Report.Types.{ParseReport}
use endb.Cst.Report.Found.{Unicode}
use endb.Cst.Report.Found.Laws.{is_ascii}
use endb.Cst.Report.Groups.{Groups}
use endb.Cst.Report.Build.{parse_errors_to_report}
use endb.Cst.Report.Draw.{Renderer, parse_report_to_string}
use endb.Peg.Outcome.{done, fault, overflow}
use endb.Peg.Leaf.{Crates, u32_mod}
use endb.Sql.Parse.{sql_stmt_list, default_state, sql_fuel}
use endb.Repl.{
  Input, line, read_error, Printed, expression, nothing, faulted, is_blank, print_report, goes_on,
}

-- What a line may make.
pub data Answers (lib : Crates) (render : Renderer) (u : Unicode) (iter : Groups → Groups)
    (fuel : ℕ) (src : Str) : Printed → Type 0 where
  blank : is_blank u src ≡ true → Answers lib render u iter fuel src nothing
  parsed :
      (pos : ℕ) (st : ParseState) (text : Str)
      → sql_stmt_list lib fuel src 0 (default_state true) ≡ done (ok pos) st
      → events_to_sexp src st.events ≡ some text
      → Answers lib render u iter fuel src (expression text)
  reported :
      (e : ParseErr) (st : ParseState) (errors : List ParseError) (report : ParseReport)
      → sql_stmt_list lib fuel src 0 (default_state true) ≡ done (err e) st
      → events_to_errors st.errors ≡ some errors
      → parse_errors_to_report u iter (codes "/sql") src errors ≡ some report
      → Answers lib render u iter fuel src
          (print_report (some (parse_report_to_string render report)))
  too_many_events :
      sql_stmt_list lib fuel src 0 (default_state true) ≡ fault overflow
      → Answers lib render u iter fuel src (faulted overflow)

-- the lines of the prompt: in ASCII, shorter than 2^32 bytes, and with enough fuel
pub data Typed (fuel : ℕ) : List Input → Type 0 where
  end_of_input : Typed fuel []
  unreadable : {rest : List Input} → Typed fuel (read_error ∷ rest)
  typed :
      {src : Str} {rest : List Input}
      → is_ascii src ≡ true
      → byte_len src < u32_mod
      → sql_fuel src ≤ fuel
      → Typed fuel rest
      → Typed fuel (line src ∷ rest)

-- The answers to the lines in their order, up to the end of the input or the first panic.
pub data Dialogue (lib : Crates) (render : Renderer) (u : Unicode) (iter : Groups → Groups)
    (fuel : ℕ) : List Input → List Printed → Type 0 where
  ended : Dialogue lib render u iter fuel [] []
  cut_off : {rest : List Input} → Dialogue lib render u iter fuel (read_error ∷ rest) []
  answered :
      {src : Str} {rest : List Input} {p : Printed} {more : List Printed}
      → Answers lib render u iter fuel src p
      → goes_on p ≡ true
      → Dialogue lib render u iter fuel rest more
      → Dialogue lib render u iter fuel (line src ∷ rest) (p ∷ more)
  panicked :
      {src : Str} {rest : List Input} {p : Printed}
      → Answers lib render u iter fuel src p
      → goes_on p ≡ false
      → Dialogue lib render u iter fuel (line src ∷ rest) (p ∷ [])
