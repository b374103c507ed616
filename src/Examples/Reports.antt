-- ===== src/Examples/Reports.antt =====
-- Reports of errors, and the theorems on them and on the ranges of tokens at concrete inputs.
use endb.Prelude.{
  ℕ, ◌-◌, ◌≡◌, refl, String, true, ◌&&◌, ◌||◌, Option, none, some, List, [], ◌∷◌, leb, ◌==◌, arith,
  if◌then◌else◌, map,
}
use endb.Prelude.Text.{Str, codes, byte_len, len_utf8}
use endb.Prelude.Slices.{At-zero}
use endb.Cst.Event.{ParseState, ok, err, fail, expected_literal, expected_pattern}
use endb.Cst.Errors.{ParseError}
use endb.Cst.Sexp.{events_to_sexp}
use endb.Cst.Report.Types.{ParseReport, ParseReportKind, ParseReportLabel, red, blue}
use endb.Cst.Report.Found.{Unicode}
use endb.Cst.Report.Groups.{Groups, grouped, error_context}
use endb.Cst.Report.Groups.Totals.{ReadsOnce, total, of_errors, weigh}
use endb.Cst.Report.Groups.Laws.{AllHaveRule, grouped-total}
use endb.Cst.Report.Sorting.Laws.{Increasing, contains}
use endb.Cst.Report.Labels.{expected, all_expected, chunks, label_at}
use endb.Cst.Report.Labels.Laws.{chunks-expected, concat, FiveAtMost}
use endb.Cst.Report.Build.{parse_errors_to_report}
use endb.Cst.Report.Build.Laws.{parse_errors_to_report-some}
use endb.Peg.Syntax.{non_terminal, find_rule}
use endb.Peg.Leaf.{run_pattern, run_literal}
use endb.Peg.Machine.{run, open_rule, close_rule, end_neg}
use endb.Peg.Outcome.{Outcome, done}
use endb.Peg.Bounds.{Lands, Within, run_in_bounds}
use endb.Sql.Ranks.{sql_analysis}
use endb.Sql.Parse.{sql_stmt_list, default_state}
use endb.Sql.Sexp.{sql_events_to_sexp}
use endb.Sql.Grammar.{sql_grammar}
use endb.Peg.Meaning.{Parses, matched}
use endb.Sql.Whole.{sql_stmt_list_whole}
use endb.Examples.Regex.{toy_crates, toy_laws, toy_lines, find}
use endb.Examples.Witnesses.{small_grammar, small_state, small_run}

-- the tables of Unicode, as far as ASCII goes
abbrev pub ascii : Unicode
ascii = record {
  is_alphanumeric =
      λ c. (leb b'a' c && leb c b'z') || ((leb b'A' c && leb c b'Z') || (leb b'0' c && leb c b'9'));
  is_whitespace = λ c. c == b' ';
  to_uppercase = λ c. (if leb b'a' c && leb c b'z' then c - 32 else c) ∷ [];
}

abbrev pub in_order : Groups → Groups
in_order gs = gs

abbrev sql : Str
sql = codes "SELECT sel"

abbrev in_clause : List (String × ℕ)
in_clause = ("select_stmt", 0) ∷ ("from_clause", 6) ∷ []

abbrev errors : List ParseError
errors =
    record { descriptor = expected_literal "SELECT"; start = 7; stop = 7; context = in_clause }
    ∷ record { descriptor = expected_literal ","; start = 7; stop = 7; context = in_clause }
    ∷ record {
      descriptor = expected_pattern "\\A[0-9]+";
      start = 7;
      stop = 7;
      context = ("select_stmt", 0) ∷ ("from_clause", 6) ∷ ("number", 7) ∷ [];
    }
    ∷ []

sel_report : Option ParseReport
sel_report = parse_errors_to_report ascii in_order (codes "/sql") sql errors

abbrev helps : Option ParseReport → Option Str
helps none = none
helps (some r) = r.help

abbrev texts : Option ParseReport → List (Option Str)
texts none = []
texts (some r) = map (λ l. l.msg) r.labels

report_help_sel : helps sel_report ≡ some (codes "did you mean SELECT?")
unfolding sel_report parse_errors_to_report len_utf8
report_help_sel = refl

report_texts :
    texts sel_report
    ≡ some (codes "expected one of ',' (comma), SELECT, number")
      ∷ some (codes " in from_clause")
      ∷ []
unfolding sel_report parse_errors_to_report len_utf8
report_texts = refl

pub in_order-ReadsOnce : ReadsOnce in_order
in_order-ReadsOnce f gs = refl

error_context_rule : AllHaveRule errors
unfolding error_context
error_context_rule = (
  ("select_stmt", "from_clause" ∷ [], refl),
  (("select_stmt", "from_clause" ∷ [], refl), (("select_stmt", "from_clause" ∷ [], refl), tt)),
)

parse_errors_to_report-some_example :
    (r : ParseReport) × (parse_errors_to_report ascii in_order (codes "/sql") sql errors ≡ some r)
parse_errors_to_report-some_example =
    parse_errors_to_report-some ascii in_order (codes "/sql") sql errors in_order-ReadsOnce
      error_context_rule refl (omega arith)

abbrev second : ParseReportLabel
second = record (label_at (codes "/sql") 6 7 (codes " in from_clause") blue) { order = 1 }

abbrev labels : List ParseReportLabel
labels =
    label_at (codes "/sql") 7 10 (codes "expected one of ',' (comma), SELECT, number") red
    ∷ second
    ∷ []

abbrev made : ParseReport
made = record {
  kind = ParseReportKind.error;
  code = none;
  msg = some (codes "unexpected sel");
  note = none;
  help = some (codes "did you mean SELECT?");
  location = (codes "/sql", 7);
  labels = labels;
  source = sql;
}

report_made : parse_errors_to_report ascii in_order (codes "/sql") sql errors ≡ some made
unfolding parse_errors_to_report len_utf8
report_made = refl

abbrev groups : Groups
groups = ("select_stmt" ∷ "from_clause" ∷ [], errors) ∷ []

groups_made : grouped in_order errors ≡ some groups
unfolding grouped
groups_made = refl

grouped-total_example : total (of_errors λ e. e.start) groups ≡ weigh (λ e. e.start) errors
grouped-total_example =
    grouped-total in_order in_order-ReadsOnce (λ e. e.start) errors groups groups_made

chunks-expected_example :
    Increasing (concat (chunks (expected errors)))
    × ((t : Str)
        → contains t (concat (chunks (expected errors))) ≡ contains t (all_expected errors))
    × FiveAtMost (chunks (expected errors))
chunks-expected_example = chunks-expected errors

run_in_bounds_example : Lands (codes "a +") (ok 3) × Within (codes "a +") small_state.events
run_in_bounds_example =
    run_in_bounds toy_crates small_grammar sql_analysis (codes "a +") toy_laws 40 (non_terminal "x")
      0 (default_state true) (At-zero (codes "a +")) tt small_run

abbrev state_of : Outcome → ParseState
state_of (done r st) = st
state_of _ = default_state true

-- a parse that fails after the first two tokens
pub unfinished : ParseState
unfinished =
    state_of (sql_stmt_list toy_crates 200 (codes "SELECT foo FROM") 0 (default_state true))

pub unfinished_run :
    sql_stmt_list toy_crates 200 (codes "SELECT foo FROM") 0 (default_state true)
    ≡ done (err fail) unfinished
unfolding unfinished sql_stmt_list find run find_rule open_rule run_pattern run_literal len_utf8
    close_rule end_neg
unfinished_run = refl

sql_events_to_sexp_example :
    (text : Str) × (events_to_sexp (codes "SELECT foo FROM") unfinished.events ≡ some text)
sql_events_to_sexp_example =
    sql_events_to_sexp toy_crates 200 (codes "SELECT foo FROM") true (err fail) unfinished toy_laws
      unfinished_run

-- a parse that succeeds, with a line feed at its end
abbrev one_column : Str
one_column = codes "SELECT foo\n"

finished : ParseState
finished = state_of (sql_stmt_list toy_crates 200 one_column 0 (default_state true))

finished_run :
    sql_stmt_list toy_crates 200 one_column 0 (default_state true) ≡ done (ok 11) finished
unfolding finished sql_stmt_list find run find_rule open_rule run_pattern run_literal len_utf8
    close_rule end_neg
finished_run = refl

sql_stmt_list_whole_example :
    (11 ≡ byte_len one_column)
    × Parses toy_crates sql_grammar (non_terminal "sql_stmt_list") one_column (matched [])
sql_stmt_list_whole_example =
    sql_stmt_list_whole toy_crates toy_lines one_column 200 11 (default_state true) finished
      toy_laws finished_run
