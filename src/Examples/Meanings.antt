-- ===== src/Examples/Meanings.antt =====
-- The meaning of a grammar at concrete texts, the report of one that it does not match, and a hidden
-- node.
use endb.Prelude.{◌≡◌, refl, ◌⊎◌, ◌<◌, ◌≢◌, true, false, none, some, arith, [], ◌∷◌}
use endb.Prelude.Text.{Str, codes, byte_len, len_utf8}
use endb.Prelude.Slices.{slice_from-zero}
use endb.Cst.Event.{Event, open_node, close_node, ParseState, ParseResult, ok, fail}
use endb.Peg.Hidden.{HiddenIfSingle, run_rule-Hidden}
use endb.Peg.Machine.{run_rule, open_rule, close_rule}
use endb.Peg.Leaf.{run_literal}
use endb.Peg.Syntax.{hidden_rule, find_rule, non_terminal}
use endb.Peg.Outcome.{done, fault, overflow}
use endb.Peg.Leaf.{u32_mod}
use endb.Peg.Meaning.{Answer, failed, Parses}
use endb.Peg.Meaning.Sound.{Answers, run_means}
use endb.Peg.Meaning.Complete.{Says, Means}
use endb.Sql.Grammar.{sql_grammar}
use endb.Sql.Ranks.{sql_analysis}
use endb.Sql.Parse.{sql_stmt_list, sql_fuel, default_state}
use endb.Sql.Meaning.{sql_stmt_list-Means}
use endb.Cst.Report.Types.{ParseReport}
use endb.Cst.Report.Build.{parse_errors_to_report}
use endb.Ffi.ParseSql.Reported.{sql_report-some}
use endb.Examples.Regex.{toy_crates, toy_laws, find}
use endb.Examples.Witnesses.{small_grammar, small_run, query, query_small, reported, reported_run}
use endb.Examples.Reports.{unfinished_run, ascii, in_order, in_order-ReadsOnce}

run_means_example :
    Answers toy_crates small_grammar (codes "a +") (non_terminal "x") (codes "a +") (ok 3)
run_means_example =
    run_means toy_crates small_grammar (codes "a +") sql_analysis toy_laws 40 (non_terminal "x") 0
      (default_state true) (slice_from-zero (codes "a +")) small_run

sql_stmt_list-Means_example :
    ((r : ParseResult) × (st : ParseState) × (o : Answer) × (sql_stmt_list toy_crates
          (sql_fuel query)
          query
          0
          (default_state true)
        ≡ done r st)
      × Says query o r
      × Means toy_crates sql_grammar (non_terminal "sql_stmt_list") query o)
    ⊎ (sql_stmt_list toy_crates (sql_fuel query) query 0 (default_state true) ≡ fault overflow)
sql_stmt_list-Means_example =
    sql_stmt_list-Means toy_crates query (default_state true) (sql_fuel query) toy_laws query_small
      (omega arith)

-- SELECT foo FROM is no SQL
abbrev pub no_table : Str
no_table = codes "SELECT foo FROM"

pub no_table_small : byte_len no_table < u32_mod
unfolding byte_len len_utf8
no_table_small = omega arith

pub no_table_fails :
    Parses toy_crates sql_grammar (non_terminal "sql_stmt_list") no_table (failed fail)
unfolding sql_stmt_list
no_table_fails =
    run_means toy_crates sql_grammar no_table sql_analysis toy_laws 200
      (non_terminal "sql_stmt_list") 0 (default_state true) (slice_from-zero no_table)
      unfinished_run

pub toy_anchored : (h : Str) → toy_crates.find "\\A" h ≢ none
unfolding find
toy_anchored h e = cc

sql_report-some_example :
    (report : ParseReport) × (parse_errors_to_report ascii in_order
        (codes "/sql")
        (codes "x")
        reported
      ≡ some report)
sql_report-some_example =
    sql_report-some toy_crates 400 (codes "x") toy_laws toy_anchored ascii in_order (codes "/sql")
      reported in_order-ReadsOnce refl reported_run

-- the rule y over z hides itself
abbrev hidden_state : ParseState
hidden_state = record {
  events =
      open_node "y" 2 true
      ∷ open_node "z" 2 false
      ∷ Event.literal "+" 2 3
      ∷ close_node 1 false
      ∷ close_node 0 true
      ∷ [];
  errors = [];
  track_errors = false;
}

hidden_run :
    run_rule toy_crates small_grammar
      (codes "a +")
      40
      (hidden_rule "y" (non_terminal "z"))
      2
      (default_state false)
    ≡ done (ok 3) hidden_state
unfolding run_rule find_rule open_rule close_rule run_literal len_utf8 find
hidden_run = refl

run_rule-Hidden_example : HiddenIfSingle "y" 2 (default_state false) hidden_state
run_rule-Hidden_example =
    run_rule-Hidden toy_crates small_grammar (codes "a +") 40 (hidden_rule "y" (non_terminal "z")) 2
      (default_state false) refl (omega arith) hidden_run
