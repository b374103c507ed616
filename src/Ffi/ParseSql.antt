-- ===== src/Ffi/ParseSql.antt =====
-- lib/endb_lib/src/lib.rs, `endb_parse_sql_cst`: one parse for the tree, and if it fails a second
-- one for the errors, whose report is handed to `on_error`. The callbacks are recorded in the order in
-- which they are called. The two C strings are texts.
mod Calls
pub mod Replies
pub mod Meaning
pub mod Reported
use endb.Prelude.{
  ℕ, ◌<◌, ◌≤◌, Bool, true, false, Option, none, some, List, [], ◌∷◌, ◌++◌, ◌≡◌, ◌≢◌, ◌∙◌, sym, ap,
  subst, refl, ◌⊎◌, inl, inr, arith, String, Option-cases,
}
use mathlib.Core.Path.{ap₂}
use endb.Prelude.Text.{Str, byte_len}
use endb.Cst.Event.{ParseState, ParseResult, ParseErr, ok, err}
use endb.Cst.Errors.{ParseError, events_to_errors}
use endb.Cst.Errors.Laws.{Trace-no_panic}
use endb.Cst.Report.Draw.{Rendered, Renderer, parse_errors_to_string}
use endb.Cst.Report.Found.{Unicode}
use endb.Cst.Report.Groups.{Groups}
use endb.Ffi.Callback.{Called, callback, nul_panic, string_callback}
use endb.Peg.Syntax.{non_terminal}
use endb.Peg.Outcome.{Outcome, Fault, done, fault, panic, overflow}
use endb.Peg.Leaf.{Crates, u32_mod}
use endb.Peg.Grows.{Grows, run-Grows}
use endb.Peg.Tracking.{untrack, untrack_outcome, run-untracked}
use endb.Peg.Progress.{RegexLaws}
use endb.Sql.Grammar.{sql_grammar}
use endb.Sql.Ranks.{sql_analysis}
use endb.Sql.Parse.{sql_stmt_list, default_state, sql_fuel, sql_stmt_list_returns}
pub use Calls.*

-- What the parses come to: the callbacks of a successful one, or the errors of the second one, which
-- are yet to be reported.
pub data Parsed : Type 0 where
  tree : List CstCall → Parsed
  failed : List ParseError → Parsed
  aborted : Fault → Parsed

-- the errors of the second parse, whatever it returns
abbrev pub second_errors : Outcome → Parsed
second_errors (done r st) = elim (events_to_errors st.errors) [
  | none ↦ aborted panic
  | some errors ↦ failed errors
]
second_errors (fault x) = aborted x

-- the `match` on the first parse; the second is read only where the first failed
unfoldable pub parsed_as : Outcome → Outcome → Parsed
unfolding cst_calls events_to_errors
parsed_as (done (ok pos) st) second = tree (cst_calls st.events)
parsed_as (done (err e) st) second = second_errors second
parsed_as (fault x) second = aborted x

unfoldable pub parse_or_errors : Crates → ℕ → Str → Parsed
unfolding sql_stmt_list parsed_as
parse_or_errors lib fuel input =
    parsed_as (sql_stmt_list lib fuel input 0 (default_state false))
      (sql_stmt_list lib fuel input 0 (default_state true))

-- What the caller sees of the call: the callbacks of a tree, `on_error` with the report, or a panic,
-- which ends the process.
pub data Reply : Type 0 where
  calls : List CstCall → Reply
  on_error : Str → Reply
  panics : Fault → Reply

abbrev pub on_error_call : Called → Reply
on_error_call (callback text) = on_error text
on_error_call nul_panic = panics panic

-- `string_callback(parse_errors_to_string(..).unwrap(), on_error)`
unfoldable pub report_reply : Option Rendered → Reply
unfolding string_callback
report_reply none = panics panic
report_reply (some (Rendered.err e)) = panics panic
report_reply (some (Rendered.ok text)) = on_error_call (string_callback text)

module _ (lib : Crates) (render : Renderer) (u : Unicode) (iter : Groups → Groups)
    (filename input : Str) where
  unfoldable pub reply_to : Parsed → Reply
  unfolding report_reply parse_errors_to_string
  reply_to (tree cs) = calls cs
  reply_to (failed errors) =
      report_reply (parse_errors_to_string render u iter filename input errors)
  reply_to (aborted x) = panics x

  unfoldable pub endb_parse_sql_cst : ℕ → Reply
  unfolding parse_or_errors reply_to
  endb_parse_sql_cst fuel = reply_to (parse_or_errors lib fuel input)

pub report-some :
    (r : ParseResult) (st : ParseState) {errors : List ParseError}
    → events_to_errors st.errors ≡ some errors
    → second_errors (done r st) ≡ failed errors
report-some r st e = ground (arith, e)

errors_failed :
    (r : ParseResult) (st : ParseState) {errors : List ParseError}
    → second_errors (done r st) ≡ failed errors
    → events_to_errors st.errors ≡ some errors
errors_failed r st e = ground (arith, e)

module _ (lib : Crates) (fuel : ℕ) (input : Str) where
  -- the parse without errors, from the one with them
  pub untracked_parse :
      {o : Outcome}
      → sql_stmt_list lib fuel input 0 (default_state true) ≡ o
      → sql_stmt_list lib fuel input 0 (default_state false) ≡ untrack_outcome o
  unfolding sql_stmt_list
  untracked_parse e =
      run-untracked lib sql_grammar input fuel (non_terminal "sql_stmt_list") 0 (default_state true)
      ∙ ap untrack_outcome e

  pub parse-Grows :
      {r : ParseResult} {st : ParseState}
      → sql_stmt_list lib fuel input 0 (default_state true) ≡ done r st
      → Grows (default_state true) st
  unfolding sql_stmt_list
  parse-Grows e = run-Grows lib sql_grammar input fuel (non_terminal "sql_stmt_list") 0 _ e

  -- the reply, by the outcome of the tracked parse
  pub reply_of :
      (o : Outcome)
      → sql_stmt_list lib fuel input 0 (default_state true) ≡ o
      → parse_or_errors lib fuel input ≡ parsed_as (untrack_outcome o) o
  unfolding parse_or_errors
  reply_of o e = ap₂ parsed_as (untracked_parse e) e

  failed_case :
      (errors : List ParseError) (o : Outcome)
      → sql_stmt_list lib fuel input 0 (default_state true) ≡ o
      → parsed_as (untrack_outcome o) o ≡ failed errors
      → (e : ParseErr) × (st : ParseState) × (sql_stmt_list lib fuel input 0 (default_state true)
          ≡ done (err e) st)
        × (sql_stmt_list lib fuel input 0 (default_state false) ≡ done (err e) (untrack st))
        × (events_to_errors st.errors ≡ some errors)
  unfolding parsed_as
  failed_case errors (done (ok pos) st) q h = cc
  failed_case errors (done (err e) st) q h =
      (e, st, q, untracked_parse q, errors_failed (err e) st h)
  failed_case errors (fault x) q h = cc

  -- The errors that are reported come from a parse that failed as the first one did, with the same
  -- result and the same events.
  pub failed_of_same :
      (errors : List ParseError)
      → parse_or_errors lib fuel input ≡ failed errors
      → (e : ParseErr) × (st : ParseState) × (sql_stmt_list lib fuel input 0 (default_state true)
          ≡ done (err e) st)
        × (sql_stmt_list lib fuel input 0 (default_state false) ≡ done (err e) (untrack st))
        × (events_to_errors st.errors ≡ some errors)
  failed_of_same errors h = failed_case errors _ refl (sym (reply_of _ refl) ∙ h)
