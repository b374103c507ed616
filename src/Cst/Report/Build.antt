-- ===== src/Cst/Report/Build.antt =====
-- lib/endb_cst/src/lib.rs, `parse_errors_to_string`: the report that `parse_report_to_string` draws.
pub mod Laws
pub mod Panics
use endb.Prelude.{
  ℕ, suc, ◌%◌, Bool, true, false, ◌||◌, Option, none, some, List, [], ◌∷◌, ◌++◌, ◌^◌, ◌>>=◌,
  if◌then◌else◌, push,
}
use endb.Prelude.Text.{Str, codes}
use endb.Cst.Errors.{ParseError}
use endb.Cst.Report.Types.{ParseReport, ParseReportKind, ParseReportLabel, label_eq, list_eq}
use endb.Cst.Report.Found.{Unicode, error_start, error_end, found}
use endb.Cst.Report.Groups.{Groups, grouped}
use endb.Cst.Report.Labels.{expected, suggestion, group_labels}

-- `if !label_sets.iter().any(|s| *s == labels) { label_sets.push(labels); }`
abbrev pub any_set : List ParseReportLabel → List (List ParseReportLabel) → Bool
any_set labels [] = false
any_set labels (s ∷ sets) = list_eq label_eq s labels || any_set labels sets

unfoldable pub push_set :
    List (List ParseReportLabel) → List ParseReportLabel → List (List ParseReportLabel)
unfolding label_eq
push_set sets labels = if any_set labels sets then sets else push sets labels

-- `format!("did you mean {}?", e)`
abbrev pub help_for : Option Str → Option Str → Option Str
help_for none help = help
help_for (some e) help = some (codes "did you mean " ++ (e ++ codes "?"))

-- `label_sets.iter_mut().flatten()`
unfoldable pub flatten : List (List ParseReportLabel) → List ParseReportLabel
flatten [] = []
flatten (s ∷ sets) = s ++ flatten sets

-- `label.order = idx as i32`
unfoldable pub set_orders : ℕ → List ParseReportLabel → List ParseReportLabel
set_orders idx [] = []
set_orders idx (l ∷ ls) = record l { order = idx % 2 ^ 32 } ∷ set_orders (suc idx) ls

-- `format!("unexpected {}", if found.is_empty() { "EOF" } else { found })`
abbrev pub unexpected_message : Str → Str
unexpected_message [] = codes "unexpected EOF"
unexpected_message (c ∷ s) = codes "unexpected " ++ (c ∷ s)

module _ (u : Unicode) (filename : Str) (start stop : ℕ) (text : Str) where
  -- the loop over the groups
  unfoldable pub label_sets : Groups → List (List ParseReportLabel) → List (List ParseReportLabel)
  unfolding push_set group_labels
  label_sets [] sets = sets
  label_sets ((context, errs) ∷ gs) sets =
      label_sets gs
        (push_set sets (group_labels filename start stop (unexpected_message text) context errs))

  -- `report.help`, which each round may set
  unfoldable pub report_help : Groups → Option Str → Option Str
  unfolding suggestion expected
  report_help [] help = help
  report_help ((context, errs) ∷ gs) help =
      report_help gs (help_for (suggestion u text (expected errs)) help)

-- The report for `errors`; `none` is a panic.
unfoldable pub parse_errors_to_report :
    Unicode → (Groups → Groups) → Str → Str → List ParseError → Option ParseReport
unfolding error_end grouped found label_sets report_help flatten set_orders
parse_errors_to_report u iter filename src errors = do
  let start = error_start errors
  stop ← error_end u src start
  groups ← grouped iter errors
  text ← found u src start stop
  some (record {
    kind = ParseReportKind.error;
    code = none;
    msg = some (unexpected_message text);
    note = none;
    help = report_help u filename start stop text groups none;
    location = (filename, start);
    labels = set_orders 0 (flatten (label_sets u filename start stop text groups []));
    source = src;
  })
