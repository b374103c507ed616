-- ===== src/Ffi/ParseSql/Reported.antt =====
-- lib/endb_lib/src/lib.rs, `endb_parse_sql_cst`, with lib/endb_cst/src/lib.rs,
-- `parse_errors_to_string`: the report of an input that is no SQL.
use endb.Prelude.{
  ℕ, ◌≤◌, true, none, some, List, [], ◌∷◌, ◌≡◌, ◌≢◌, refl, sym, ◌∙◌, subst, arith, length, and-true,
  ltb,
}
use mathlib.Core.Option.{some-injective}
use endb.Prelude.Text.{Str, byte_len, len_utf8}
use endb.Prelude.Slices.{slice_from-zero, slice_from-le}
use endb.Cst.Event.{Event, ParseState, ParseResult}
use endb.Cst.Errors.{ParseError, ErrorScan, events_to_errors, scan_events, start_scan}
use endb.Cst.Report.Types.{ParseReport}
use endb.Cst.Report.Found.{Unicode, error_start}
use endb.Cst.Report.Found.Laws.{is_ascii}
use endb.Cst.Report.Groups.{Groups}
use endb.Cst.Report.Groups.Totals.{ReadsOnce}
use endb.Cst.Report.Build.{parse_errors_to_report}
use endb.Cst.Report.Build.Laws.{parse_errors_to_report-some}
use endb.Peg.Syntax.{find_rule}
use endb.Peg.Outcome.{done}
use endb.Peg.Leaf.{Crates}
use endb.Peg.Progress.{RegexLaws}
use endb.Peg.Reported.{Scanned, Good, AllAt, Kept, entry-Kept}
use endb.Sql.Grammar.{sql_grammar}
use endb.Sql.Ranks.{sql_analysis}
use endb.Sql.Parse.{sql_stmt_list, default_state}
use endb.Ffi.ParseSql.{Parsed, parse_or_errors, failed_of_same}

byte_len-ascii : (s : Str) → is_ascii s ≡ true → byte_len s ≡ length s
unfolding byte_len len_utf8
byte_len-ascii [] h = refl
byte_len-ascii (c ∷ s) h =
    let (small, rest) = and-true (ltb c 128) _ h in ground (arith, small, byte_len-ascii s rest)

error_start_le :
    (input : Str) (errors : List ParseError)
    → is_ascii input ≡ true
    → AllAt input errors
    → error_start errors ≤ length input
error_start_le input [] h at = omega arith
error_start_le input (e ∷ es) h ((t, at), _) =
    omega (arith, slice_from-le input e.start at, byte_len-ascii input h)

events_to_errors-some :
    (es : List Event) {s : ErrorScan}
    → scan_events es start_scan ≡ some s
    → events_to_errors es ≡ some s.errors
unfolding events_to_errors scan_events
events_to_errors-some es h = ground (arith, h)

Scanned-Good :
    (input : Str) (c : ℕ) (es : List Event) {errors : List ParseError}
    → Scanned input c es
    → events_to_errors es ≡ some errors
    → Good input errors
Scanned-Good input c es k h =
    subst (Good input) (some-injective _ _ (sym (events_to_errors-some es k.scans) ∙ h)) k.good

module _ (lib : Crates) (fuel : ℕ) (input : Str) (laws : RegexLaws lib sql_analysis)
    (anchored : (h : Str) → lib.find "\\A" h ≢ none) where
  parse-Kept :
      {r : ParseResult} {st : ParseState}
      → sql_stmt_list lib fuel input 0 (default_state true) ≡ done r st
      → Kept input 0 st
  unfolding sql_stmt_list find_rule scan_events
  parse-Kept e =
      entry-Kept lib sql_grammar input sql_analysis laws anchored fuel "sql_stmt_list" 0
        (default_state true) refl (slice_from-zero input)
        (refl, record { scan = start_scan; scans = refl; deep = omega arith; good = (tt, tt) }) e

  reported-Good :
      (errors : List ParseError)
      → parse_or_errors lib fuel input ≡ Parsed.failed errors
      → Good input errors
  reported-Good errors h =
      let (e, st, run, _, found) = failed_of_same lib fuel input errors h in
      let (_, k) = parse-Kept run in Scanned-Good input 0 st.errors k found

  -- The errors that the call reports of an ASCII input are made a report without a panic, in
  -- whatever order the hash maps are read, each entry once, if the regular expressions keep the
  -- stated laws and `\A` matches at the start of every text.
  pub sql_report-some :
      (u : Unicode) (iter : Groups → Groups) (filename : Str) (errors : List ParseError)
      → ReadsOnce iter
      → is_ascii input ≡ true
      → parse_or_errors lib fuel input ≡ Parsed.failed errors
      → (report : ParseReport) × (parse_errors_to_report u iter filename input errors ≡ some report)
  sql_report-some u iter filename errors once ascii h =
      let (rules, at) = reported-Good errors h in
      parse_errors_to_report-some u iter filename input errors once rules ascii
        (error_start_le input errors ascii at)

  -- the errors of the tracked parse, however it ends, and their report
  pub tracked_report-some :
      (u : Unicode) (iter : Groups → Groups) (filename : Str) {r : ParseResult} {st : ParseState}
      → ReadsOnce iter
      → is_ascii input ≡ true
      → sql_stmt_list lib fuel input 0 (default_state true) ≡ done r st
      → (errors : List ParseError) × (report : ParseReport) × (events_to_errors st.errors
          ≡ some errors)
        × (parse_errors_to_report u iter filename input errors ≡ some report)
  tracked_report-some u iter filename {st = st} once ascii run =
      let (_, k) = parse-Kept run in
      let found = events_to_errors-some st.errors k.scans in
      let (rules, at) = k.good in
      let (report, made) =
        parse_errors_to_report-some u iter filename input _ once rules ascii
          (error_start_le input _ ascii at) in
      (_, report, found, made)
