-- ===== src/Examples/Witnesses.antt =====
-- The theorems at inputs that meet their hypotheses.
use endb.Prelude.{
  ◌>>=◌, ◌++◌, ◌+◌, ◌<◌, ◌≡◌, ◌⊎◌, refl, sym, subst, true, false, List, [], ◌∷◌, some, map, length,
  arith,
}
use endb.Prelude.Text.{Str, codes, byte_len, len_utf8}
use endb.Prelude.Slices.{At-zero}
use endb.Cst.Event.{
  Event, open_node, close_node, ParseState, ParseResult, ParseErr, ok, err, fail, expected_literal,
}
use endb.Cst.Forest.{Forest, Trace, nil, token, node}
use endb.Cst.Sexp.{events_to_sexp, open_text}
use endb.Cst.Sexp.Laws.{events_to_sexp-print, print}
use endb.Cst.Errors.{ParseError, ErrorScan, scan_events, start_scan, events_to_errors}
use endb.Cst.Errors.Laws.{scan_events_leaks, hidden_closes}
use endb.Cst.Errors.Furthest.{events_to_errors-furthest, failure_of, failures_at, furthest}
use endb.Peg.Syntax.{
  PegParser, ◌▹◌, end, seq, literal, non_terminal, star, rule, hidden_rule, Grammar, find_rule,
}
use endb.Peg.Outcome.{done, fault, overflow}
use endb.Peg.Leaf.{u32_mod, run_literal, run_pattern}
use endb.Peg.Machine.{run, open_rule, close_rule, end_neg}
use endb.Peg.Grows.{Grows, run-Grows}
use endb.Peg.Tracking.{untrack, untrack_outcome, run-untracked}
use endb.Peg.Restores.{failure_restores}
use endb.Peg.Progress.{rule_returns, Advances}
use endb.Sql.Grammar.{sql_grammar}
use endb.Sql.Ranks.{sql_analysis, sql_well_formed, rank_of}
use endb.Sql.Parse.{sql_stmt_list, default_state, sql_fuel, sql_stmt_list_returns}
use endb.Ffi.ParseSql.{
  Parsed, failed, parse_or_errors, failed_of_same, cst_calls, tree_calls, cst_calls-tree_calls,
}
use endb.Examples.Regex.{toy_crates, toy_laws, find}

abbrev pub query : Str
query = codes "SELECT foo FROM bar"

pub query_small : byte_len query < u32_mod
unfolding byte_len len_utf8
query_small = omega arith

sql_stmt_list_returns_example :
    ((r : ParseResult) × (st : ParseState) × (sql_stmt_list toy_crates
          (sql_fuel query)
          query
          0
          (default_state true)
        ≡ done r st)
      × Advances query true 0 r)
    ⊎ (sql_stmt_list toy_crates (sql_fuel query) query 0 (default_state true) ≡ fault overflow)
sql_stmt_list_returns_example =
    sql_stmt_list_returns toy_crates query (default_state true) (sql_fuel query) toy_laws
      query_small (omega arith)

rule_returns_example :
    ((r : ParseResult) × (st : ParseState) × (run toy_crates sql_grammar query 90_000
          (non_terminal "expr")
          0
          (default_state false)
        ≡ done r st)
      × Advances query (sql_analysis.consuming_rule "expr") 0 r)
    ⊎ (run toy_crates sql_grammar query 90_000 (non_terminal "expr") 0 (default_state false)
        ≡ fault overflow)
unfolding byte_len find_rule rank_of len_utf8
rule_returns_example =
    rule_returns toy_crates sql_grammar sql_analysis query toy_laws sql_well_formed query_small
      "expr" 0 (default_state false) 90_000 refl (omega arith) (At-zero query) (omega arith)

-- x <- "a" y; <y> <- z; z <- "+"*;
abbrev pub small_grammar : Grammar
small_grammar =
    rule "x" (seq (literal "a" ▹ non_terminal "y" ▹ end))
    ∷ hidden_rule "y" (non_terminal "z")
    ∷ rule "z" (star (literal "+"))
    ∷ []

abbrev small_events : List Event
small_events =
    open_node "x" 0 false
    ∷ Event.literal "a" 0 1
    ∷ open_node "y" 2 true
    ∷ open_node "z" 2 false
    ∷ Event.literal "+" 2 3
    ∷ close_node 3 false
    ∷ close_node 2 true
    ∷ close_node 0 false
    ∷ []

abbrev small_errors : List Event
small_errors =
    open_node "x" 0 false
    ∷ open_node "y" 2 false
    ∷ open_node "z" 2 false
    ∷ Event.error 3 3 (expected_literal "+")
    ∷ close_node 3 false
    ∷ close_node 2 true
    ∷ close_node 0 false
    ∷ []

abbrev pub small_state : ParseState
small_state = record { events = small_events; errors = small_errors; track_errors = true }

pub small_run :
    run toy_crates small_grammar (codes "a +") 40 (non_terminal "x") 0 (default_state true)
    ≡ done (ok 3) small_state
unfolding run find_rule open_rule close_rule run_literal len_utf8 find
small_run = refl

run-Grows_example : Grows (default_state true) small_state
run-Grows_example =
    run-Grows toy_crates small_grammar (codes "a +") 40 (non_terminal "x") 0 (default_state true)
      small_run

run-untracked_example :
    run toy_crates small_grammar (codes "a +") 40 (non_terminal "x") 0 (default_state false)
    ≡ untrack_outcome
        (run toy_crates small_grammar (codes "a +") 40 (non_terminal "x") 0 (default_state true))
run-untracked_example =
    run-untracked toy_crates small_grammar (codes "a +") 40 (non_terminal "x") 0
      (default_state true)

-- a rule that succeeds, then a literal that does not
abbrev failing : PegParser
failing = seq (non_terminal "z" ▹ literal "a" ▹ end)

abbrev failed_state : ParseState
failed_state = record {
  events = [];
  errors =
      open_node "z" 0 false
      ∷ Event.error 0 0 (expected_literal "+")
      ∷ close_node 0 false
      ∷ Event.error 0 0 (expected_literal "a")
      ∷ [];
  track_errors = true;
}

failing-run :
    run toy_crates small_grammar (codes "b") 40 failing 0 (default_state true)
    ≡ done (err fail) failed_state
unfolding run find_rule open_rule close_rule run_literal len_utf8 find
failing-run = refl

failure_restores_example : failed_state.events ≡ []
failure_restores_example =
    failure_restores toy_crates small_grammar (codes "b") 40 failing 0 (default_state true)
      failed_state fail refl failing-run

small-Grows : Grows (default_state true) small_state
small-Grows =
    run-Grows toy_crates small_grammar (codes "a +") 40 (non_terminal "x") 0 (default_state true)
      small_run

small_errors-Trace : Trace small_errors
small_errors-Trace = subst Trace (sym small-Grows.errors_eq) small-Grows.trace

small_events-Forest : Forest 0 small_events
small_events-Forest = subst (Forest 0) (sym small-Grows.events_eq) small-Grows.forest

-- one hidden close: an entry stays
scan_events_leaks_example :
    (s : ErrorScan) × (scan_events small_errors start_scan ≡ some s)
    × (length s.context ≡ 0 + hidden_closes small_errors)
scan_events_leaks_example = scan_events_leaks {es = small_errors} start_scan small_errors-Trace

abbrev small_report : List ParseError
small_report =
    record {
      descriptor = expected_literal "+";
      start = 3;
      stop = 3;
      context = ("x", 0) ∷ ("y", 2) ∷ ("z", 2) ∷ [];
    }
    ∷ []

small_report_run : events_to_errors small_errors ≡ some small_report
unfolding events_to_errors
small_report_run = refl

events_to_errors-furthest_example :
    map failure_of small_report ≡ failures_at (furthest small_errors) small_errors
events_to_errors-furthest_example =
    events_to_errors-furthest small_errors small_report small_report_run

cst_calls-tree_calls_example : cst_calls small_events ≡ tree_calls small_events-Forest
cst_calls-tree_calls_example = cst_calls-tree_calls small_events-Forest

abbrev pub errors_of : Parsed → List ParseError
errors_of (failed errors) = errors
errors_of _ = []

pub reported : List ParseError
reported = errors_of (parse_or_errors toy_crates 400 (codes "x"))

pub reported_run : parse_or_errors toy_crates 400 (codes "x") ≡ failed reported
unfolding reported parse_or_errors find run find_rule open_rule run_pattern run_literal len_utf8
    close_rule end_neg
reported_run = refl

failed_of_same_example :
    (e : ParseErr) × (st : ParseState) × (sql_stmt_list toy_crates 400
        (codes "x")
        0
        (default_state true)
      ≡ done (err e) st)
    × (sql_stmt_list toy_crates 400 (codes "x") 0 (default_state false) ≡ done (err e) (untrack st))
    × (events_to_errors st.errors ≡ some reported)
failed_of_same_example = failed_of_same toy_crates 400 (codes "x") reported reported_run

-- the children of the rule x in `small_events`
small_body : Forest 1 (
    Event.literal "a" 0 1
    ∷ open_node "y" 2 true
    ∷ open_node "z" 2 false
    ∷ Event.literal "+" 2 3
    ∷ close_node 3 false
    ∷ close_node 2 true
    ∷ [])
small_body = token (node {n = 2} (node {n = 3} (token nil) refl nil) refl nil)

events_to_sexp-print_example :
    events_to_sexp (codes "a +") small_events
    ≡ (do t ← print (codes "a +") small_body; some (open_text "x" ++ (t ++ codes ")")))
events_to_sexp-print_example = events_to_sexp-print (codes "a +") "x" 0 0 small_body
