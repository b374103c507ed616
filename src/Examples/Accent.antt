-- ===== src/Examples/Accent.antt =====
-- A text that begins with a letter that is not ASCII.
use endb.Prelude.{false, ◌≡◌, refl, ◌||◌, ◌&&◌, none, some, List, [], ◌∷◌, leb, ◌==◌, arith}
use endb.Prelude.Text.{Str, codes, slice_from, len_utf8}
use endb.Cst.Errors.{ParseError}
use endb.Cst.Report.Found.{Unicode, error_start, starts_punctuation}
use endb.Cst.Report.Build.{parse_errors_to_report}
use endb.Cst.Report.Build.Panics.{parse_errors_to_report-none}
use endb.Peg.Syntax.{find_rule}
use endb.Peg.Outcome.{panic}
use endb.Cst.Report.Draw.{Renderer, parse_errors_to_string}
use endb.Peg.Leaf.{run_pattern, run_literal}
use endb.Peg.Machine.{run, open_rule, close_rule, end_neg}
use endb.Ffi.ParseSql.{Parsed, parse_or_errors, panics, report_reply, reply_to, endb_parse_sql_cst}
use endb.Examples.Regex.{toy_crates, find}
use endb.Examples.Reports.{in_order}
use endb.Examples.Witnesses.{errors_of}

-- the tables of Unicode, as far as Latin-1 goes
abbrev latin : Unicode
latin = record {
  is_alphanumeric = λ c.
      (leb b'a' c && leb c b'z')
      || ((leb b'A' c && leb c b'Z') || ((leb b'0' c && leb c b'9') || leb 0xc0 c));
  is_whitespace = λ c. c == b' ';
  to_uppercase = λ c. c ∷ [];
}

-- é = 1
abbrev accent : Str
accent = 0xe9 ∷ codes " = 1"

accent_errors : List ParseError
accent_errors = errors_of (parse_or_errors toy_crates 400 accent)

accent_run : parse_or_errors toy_crates 400 accent ≡ Parsed.failed accent_errors
unfolding accent_errors parse_or_errors find run find_rule open_rule run_pattern run_literal
    len_utf8 close_rule end_neg
accent_run = refl

accent_start : error_start accent_errors ≡ 0
unfolding accent_errors parse_or_errors find run find_rule open_rule run_pattern run_literal
    len_utf8 close_rule end_neg
accent_start = refl

accent_at : slice_from accent (error_start accent_errors) ≡ some accent
unfolding slice_from
accent_at = rw accent_start refl

accent_word : starts_punctuation accent (error_start accent_errors) ≡ false
unfolding starts_punctuation
accent_word = rw accent_start refl

-- the errors of the parser make the report panic
parse_errors_to_report-none_example :
    parse_errors_to_report latin in_order (codes "/sql") accent accent_errors ≡ none
parse_errors_to_report-none_example =
    parse_errors_to_report-none latin in_order (codes "/sql") accent accent_errors 0xe9
      (codes " = 1") accent_at (omega arith) refl refl accent_word

-- and with it the call, whatever draws the reports
accent_panics :
    (render : Renderer)
    → endb_parse_sql_cst toy_crates render latin in_order (codes "/sql") accent 400 ≡ panics panic
unfolding endb_parse_sql_cst reply_to report_reply parse_errors_to_string
accent_panics render = rw (accent_run, parse_errors_to_report-none_example) refl
