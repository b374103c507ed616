-- ===== src/Cst/Report/Draw.antt =====
-- lib/endb_cst/src/lib.rs: `parse_report_to_string` and its callers. The drawing itself is ariadne's.
pub mod Laws
use endb.Prelude.{ℕ, Option, none, some, List, [], ◌∷◌, ◌++◌, map}
use endb.Prelude.Text.{Str}
use endb.Cst.Errors.{ParseError}
use endb.Cst.Report.Types.{ParseReport, ParseReportKind, ParseReportColor, ParseReportLabel}
use endb.Cst.Report.Found.{Unicode}
use endb.Cst.Report.Groups.{Groups}
use endb.Cst.Report.Build.{parse_errors_to_report}

-- `ariadne::ReportKind` and `ariadne::Color`, as far as they are used
pub data ReportKind : Type 0 where
  error warning advice : ReportKind

pub data Color : Type 0 where
  unset default black red green yellow blue magenta cyan white : Color

-- an `ariadne::Label` by what it is made with
pub record Label : Type 0 where
  pub filename : Str
  pub start : ℕ
  pub stop : ℕ
  pub color : Color
  pub order : ℕ
  pub priority : ℕ
  pub message : Option Str

-- the calls of the report builder
pub data BuilderCall : Type 0 where
  build : ReportKind → Str → ℕ → BuilderCall
  with_code : Str → BuilderCall
  with_message : Str → BuilderCall
  with_note : Str → BuilderCall
  with_help : Str → BuilderCall
  with_label : Label → BuilderCall

-- `Ok` of a text, or an error by its text
pub data Rendered : Type 0 where
  ok : Str → Rendered
  err : Str → Rendered

abbrev pub report_kind : ParseReportKind → ReportKind
report_kind ParseReportKind.error = error
report_kind ParseReportKind.warning = warning
report_kind ParseReportKind.advice = advice

unfoldable pub label_color : Option ParseReportColor → Color
label_color none = unset
label_color (some ParseReportColor.unset) = unset
label_color (some ParseReportColor.default) = default
label_color (some ParseReportColor.black) = black
label_color (some ParseReportColor.red) = red
label_color (some ParseReportColor.green) = green
label_color (some ParseReportColor.yellow) = yellow
label_color (some ParseReportColor.blue) = blue
label_color (some ParseReportColor.magenta) = magenta
label_color (some ParseReportColor.cyan) = cyan
label_color (some ParseReportColor.white) = white

unfoldable pub report_label : ParseReportLabel → Label
unfolding label_color
report_label l = record {
  filename = l.filename;
  start = l.start;
  stop = l.stop;
  color = label_color l.color;
  order = l.order;
  priority = l.priority;
  message = l.msg;
}

-- `if let Some(..) = &report.. { builder = builder.with_..(..); }`
abbrev pub with_some : (Str → BuilderCall) → Option Str → List BuilderCall
with_some call none = []
with_some call (some s) = call s ∷ []

unfoldable pub builder_calls : ParseReport → List BuilderCall
unfolding report_label
builder_calls report =
    build (report_kind report.kind) report.location.0 report.location.1
    ∷ (with_some with_code report.code
        ++ (with_some with_message report.msg
            ++ (with_some with_note report.note
                ++ (with_some with_help report.help
                    ++ map (λ l. with_label (report_label l)) report.labels))))

-- `serde_json::from_str`: a report, or the text of the error
pub data FromJson : Type 0 where
  parsed : ParseReport → FromJson
  invalid : Str → FromJson

-- What draws: `finish` and `write` with the one source, by the bytes written or the text of the
-- error, and `String::from_utf8`.
pub record Renderer : Type 0 where
  pub write : List BuilderCall → Str → Str → Rendered
  pub from_json : Str → FromJson

module _ (lib : Renderer) where
  unfoldable pub parse_report_to_string : ParseReport → Rendered
  unfolding builder_calls
  parse_report_to_string report = lib.write (builder_calls report) report.location.0 report.source

  abbrev pub render_json : FromJson → Rendered
  unfolding parse_report_to_string
  render_json (parsed report) = parse_report_to_string report
  render_json (invalid e) = err e

  unfoldable pub json_error_report_to_string : Str → Rendered
  unfolding parse_report_to_string
  json_error_report_to_string report_json = render_json (lib.from_json report_json)

  abbrev pub render : Option ParseReport → Option Rendered
  unfolding parse_report_to_string
  render none = none
  render (some report) = some (parse_report_to_string report)

  -- `none` is a panic
  unfoldable pub parse_errors_to_string :
      Unicode → (Groups → Groups) → Str → Str → List ParseError → Option Rendered
  unfolding parse_report_to_string parse_errors_to_report
  parse_errors_to_string u iter filename src errors =
      render (parse_errors_to_report u iter filename src errors)
