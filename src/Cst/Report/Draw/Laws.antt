-- ===== src/Cst/Report/Draw/Laws.antt =====
-- lib/endb_cst/src/lib.rs, `parse_report_to_string`: what is handed to the drawing.
use endb.Prelude.{
  Option, none, some, List, [], ◌∷◌, ◌++◌, ◌≡◌, refl, ap, sym, ◌∙◌, map, append-nil, append_assoc,
}
use endb.Prelude.Text.{Str}
use endb.Cst.Report.Types.{ParseReport, ParseReportKind, ParseReportColor, ParseReportLabel}
use endb.Cst.Report.Draw.{
  ReportKind, Color, label_color, Label, BuilderCall, build, with_code, with_message, with_note,
  with_help, with_label, report_kind, report_label, with_some, builder_calls,
}

-- A report is read back from the calls. A label of the calls has a colour.
abbrev pub read_kind : ReportKind → ParseReportKind
read_kind ReportKind.error = ParseReportKind.error
read_kind ReportKind.warning = ParseReportKind.warning
read_kind ReportKind.advice = ParseReportKind.advice

abbrev pub read_color : Color → ParseReportColor
read_color Color.unset = ParseReportColor.unset
read_color Color.default = ParseReportColor.default
read_color Color.black = ParseReportColor.black
read_color Color.red = ParseReportColor.red
read_color Color.green = ParseReportColor.green
read_color Color.yellow = ParseReportColor.yellow
read_color Color.blue = ParseReportColor.blue
read_color Color.magenta = ParseReportColor.magenta
read_color Color.cyan = ParseReportColor.cyan
read_color Color.white = ParseReportColor.white

abbrev pub read_label : Label → ParseReportLabel
read_label l = record {
  filename = l.filename;
  start = l.start;
  stop = l.stop;
  msg = l.message;
  color = some (read_color l.color);
  order = l.order;
  priority = l.priority;
}

abbrev pub after_call : ParseReport → BuilderCall → ParseReport
after_call r (build kind filename pos) = record r {
  kind = read_kind kind;
  location = (filename, pos);
}
after_call r (with_code s) = record r { code = some s }
after_call r (with_message s) = record r { msg = some s }
after_call r (with_note s) = record r { note = some s }
after_call r (with_help s) = record r { help = some s }
after_call r (with_label l) = record r { labels = r.labels ++ (read_label l ∷ []) }

-- the calls in their order, each on what the ones before it leave
unfoldable pub after_calls : ParseReport → List BuilderCall → ParseReport
after_calls r [] = r
after_calls r (c ∷ cs) = after_calls (after_call r c) cs

abbrev pub blank : Str → ParseReport
blank source = record {
  kind = ParseReportKind.error;
  code = none;
  msg = none;
  note = none;
  help = none;
  location = ([], 0);
  labels = [];
  source = source;
}

-- a label without a colour is one without a set colour
abbrev pub or_unset : Option ParseReportColor → ParseReportColor
or_unset none = ParseReportColor.unset
or_unset (some c) = c

abbrev pub colored : ParseReportLabel → ParseReportLabel
colored l = record l { color = some (or_unset l.color) }

read-label_color : (c : Option ParseReportColor) → read_color (label_color c) ≡ or_unset c
unfolding label_color
read-label_color none = refl
read-label_color (some ParseReportColor.unset) = refl
read-label_color (some ParseReportColor.default) = refl
read-label_color (some ParseReportColor.black) = refl
read-label_color (some ParseReportColor.red) = refl
read-label_color (some ParseReportColor.green) = refl
read-label_color (some ParseReportColor.yellow) = refl
read-label_color (some ParseReportColor.blue) = refl
read-label_color (some ParseReportColor.magenta) = refl
read-label_color (some ParseReportColor.cyan) = refl
read-label_color (some ParseReportColor.white) = refl

read-report_kind : (k : ParseReportKind) → read_kind (report_kind k) ≡ k
read-report_kind ParseReportKind.error = refl
read-report_kind ParseReportKind.warning = refl
read-report_kind ParseReportKind.advice = refl

read-report_label : (l : ParseReportLabel) → read_label (report_label l) ≡ colored l
unfolding report_label
read-report_label l = ap (λ c. record l { color = some c }) (read-label_color l.color)

after_some :
    (call : Str → BuilderCall) (set : Option Str → ParseReport)
    → ((s : Str) → after_call (set none) (call s) ≡ set (some s))
    → (o : Option Str) (cs : List BuilderCall)
    → after_calls (set none) (with_some call o ++ cs) ≡ after_calls (set o) cs
unfolding after_calls
after_some call set h none cs = refl
after_some call set h (some s) cs = ap (λ b. after_calls b cs) (h s)

after_labels :
    (r : ParseReport) (ls : List ParseReportLabel)
    → after_calls r (map (λ l. with_label (report_label l)) ls)
      ≡ record r { labels = r.labels ++ map colored ls }
unfolding after_calls
after_labels r [] = ap (λ ls. record r { labels = ls }) (sym (append-nil r.labels))
after_labels r (l ∷ ls) =
    after_labels (after_call r (with_label (report_label l))) ls
    ∙ ap (λ ls'. record r { labels = ls' })
        (append_assoc r.labels (read_label (report_label l) ∷ []) (map colored ls)
          ∙ ap (λ l'. r.labels ++ l' ∷ map colored ls) (read-report_label l))

-- The calls that draw a report lose nothing of it but that a label without a colour is drawn as one
-- with no colour set: the report is read back from them, the kind, the place, each text that is there
-- and no other, and the labels in their order, with their spans, texts, orders and priorities.
pub after_calls-builder_calls :
    (report : ParseReport)
    → after_calls (blank report.source) (builder_calls report)
      ≡ record report { labels = map colored report.labels }
unfolding builder_calls after_calls
after_calls-builder_calls report =
    let kind = λ (k : ParseReportKind).
      after_calls (record (blank report.source) { kind = k; location = report.location })
        (with_some with_code report.code
          ++ (with_some with_message report.msg
              ++ (with_some with_note report.note
                  ++ (with_some with_help report.help
                      ++ map (λ l. with_label (report_label l)) report.labels)))) in
    let code : Option Str → ParseReport = λ o. record (blank report.source) {
      kind = report.kind;
      location = report.location;
      code = o;
    } in
    let message : Option Str → ParseReport = λ o. record (code report.code) { msg = o } in
    let note : Option Str → ParseReport = λ o. record (message report.msg) { note = o } in
    let help : Option Str → ParseReport = λ o. record (note report.note) { help = o } in
    ap kind (read-report_kind report.kind)
    ∙ after_some with_code code (λ s. refl) report.code _
    ∙ after_some with_message message (λ s. refl) report.msg _
    ∙ after_some with_note note (λ s. refl) report.note _
    ∙ after_some with_help help (λ s. refl) report.help _
    ∙ after_labels (help report.help) report.labels
