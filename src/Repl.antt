-- ===== src/Repl.antt =====
-- lib/endb_cst/examples/sql.rs: the prompt that prints the tree or the errors of each line.
pub mod Laws
use endb.Prelude.{ℕ, Bool, true, false, ◌&&◌, Option, none, some, List, [], ◌∷◌, if◌then◌else◌}
use endb.Prelude.Text.{Str, codes}
use endb.Cst.Event.{ParseState, ok, err}
use endb.Cst.Errors.{ParseError, events_to_errors}
use endb.Cst.Sexp.{events_to_sexp}
use endb.Cst.Report.Found.{Unicode}
use endb.Cst.Report.Groups.{Groups}
use endb.Cst.Report.Draw.{Rendered, Renderer, parse_errors_to_string}
use endb.Peg.Outcome.{Outcome, Fault, done, fault, panic}
use endb.Peg.Leaf.{Crates}
use endb.Sql.Parse.{sql_stmt_list, default_state}

-- what standard input gives; a list of these that ends is the end of the input
pub data Input : Type 0 where
  line : Str → Input
  read_error : Input

-- what a line makes: `println!`, `eprintln!`, nothing, or a panic
pub data Printed : Type 0 where
  expression : Str → Printed
  complaint : Str → Printed
  nothing : Printed
  unwrapped_error : Str → Printed
  faulted : Fault → Printed

-- `src.trim().is_empty()`
unfoldable pub is_blank : Unicode → Str → Bool
is_blank u [] = true
is_blank u (c ∷ s) = u.is_whitespace c && is_blank u s

-- `.unwrap()` of the text of the tree, and of the report
abbrev pub print_tree : Option Str → Printed
print_tree none = faulted panic
print_tree (some text) = expression text

abbrev pub print_report : Option Rendered → Printed
print_report none = faulted panic
print_report (some (Rendered.ok text)) = complaint text
print_report (some (Rendered.err e)) = unwrapped_error e

-- whether the loop goes on after a line
abbrev pub goes_on : Printed → Bool
goes_on (unwrapped_error e) = false
goes_on (faulted x) = false
goes_on _ = true

module _ (lib : Crates) (render : Renderer) (u : Unicode) (iter : Groups → Groups) where
  abbrev pub print_errors : Str → Option (List ParseError) → Printed
  unfolding parse_errors_to_string
  print_errors src none = faulted panic
  print_errors src (some errors) =
      print_report (parse_errors_to_string render u iter (codes "/sql") src errors)

  -- the `match` on the parse
  unfoldable pub print_parse : Str → Outcome → Printed
  unfolding print_errors events_to_sexp events_to_errors
  print_parse src (done (ok pos) st) = print_tree (events_to_sexp src st.events)
  print_parse src (done (err e) st) = print_errors src (events_to_errors st.errors)
  print_parse src (fault x) = faulted x

  unfoldable pub print_line : ℕ → Str → Printed
  unfolding is_blank print_parse sql_stmt_list
  print_line fuel src =
      if is_blank u src
      then nothing
      else print_parse src (sql_stmt_list lib fuel src 0 (default_state true))

  -- the `loop`, by what its rounds print
  unfoldable pub main : ℕ → List Input → List Printed
  unfolding print_line
  main fuel [] = []
  main fuel (read_error ∷ rest) = []
  main fuel (line src ∷ rest) =
      let printed = print_line fuel src in
      let more = main fuel rest in printed ∷ (if goes_on printed then more else [])
