-- ===== src/Cst/Report/Build/Laws.antt =====
-- lib/endb_cst/src/lib.rs, `parse_errors_to_string`: when there is a report, and the order of its
-- labels.
use endb.Prelude.{
  ℕ, zero, suc, ◌+◌, ◌≤◌, ◌%◌, ◌^◌, true, some, List, [], ◌∷◌, ◌≡◌, sym, ap, ◌∙◌, arith, length,
  get_elem?, inl, inr, Option-cases,
}
use mathlib.Core.Option.{some-injective}
use endb.Prelude.Text.{Str}
use endb.Cst.Errors.{ParseError}
use endb.Cst.Report.Types.{ParseReport, ParseReportLabel}
use endb.Cst.Report.Found.{Unicode, error_start, error_end, found}
use endb.Cst.Report.Found.Laws.{is_ascii, found-some}
use endb.Cst.Report.Groups.{Groups, grouped}
use endb.Cst.Report.Groups.Totals.{ReadsOnce}
use endb.Cst.Report.Groups.Laws.{AllHaveRule, grouped-some}
use endb.Cst.Report.Build.{set_orders, parse_errors_to_report}

-- A report is made, without a panic, of errors that stand in rules, in an ASCII text that the first
-- of them starts in, in whatever order the hash maps are read.
pub parse_errors_to_report-some :
    (u : Unicode) (iter : Groups → Groups) (filename src : Str) (errors : List ParseError)
    → ReadsOnce iter
    → AllHaveRule errors
    → is_ascii src ≡ true
    → error_start errors ≤ length src
    → (report : ParseReport) × (parse_errors_to_report u iter filename src errors ≡ some report)
unfolding parse_errors_to_report
parse_errors_to_report-some u iter filename src errors once rules ascii within =
    let (stop, text, e, t, _, _) = found-some u src (error_start errors) ascii within in
    let (groups, g) = grouped-some iter errors once rules in
    elim (Option-cases (parse_errors_to_report u iter filename src errors)) [
      | inl n ↦ ground (arith, simp (e, g, t) at n)
      | inr made ↦ made
    ]

set_orders-get :
    (idx : ℕ) (ls : List ParseReportLabel) (i : ℕ) {l : ParseReportLabel}
    → get_elem? (set_orders idx ls) i ≡ some l
    → l.order ≡ (idx + i) % 2 ^ 32
unfolding set_orders
set_orders-get idx [] i h = ground (arith, h)
set_orders-get idx (x ∷ ls) zero h =
    ap (λ (l : ParseReportLabel). l.order) (sym (some-injective _ _ h)) ∙ omega arith
set_orders-get idx (x ∷ ls) (suc i) h = set_orders-get (suc idx) ls i h ∙ omega arith

-- The labels of a report are numbered from 0 in their order, as `i32`s.
parse_errors_to_report-orders :
    (u : Unicode) (iter : Groups → Groups) (filename src : Str) (errors : List ParseError)
    (report : ParseReport) (i : ℕ) (l : ParseReportLabel)
    → parse_errors_to_report u iter filename src errors ≡ some report
    → get_elem? report.labels i ≡ some l
    → l.order ≡ i % 2 ^ 32
unfolding parse_errors_to_report
parse_errors_to_report-orders u iter filename src errors report i l h at =
    elim (Option-cases (error_end u src (error_start errors))) [
      | inl n ↦ ground (arith, n, h)
      | inr (stop, e) ↦ elim (Option-cases (grouped iter errors)) [
        | inl n ↦ ground (arith, e, n, h)
        | inr (groups, g) ↦ elim (Option-cases (found u src (error_start errors) stop)) [
          | inl n ↦ ground (arith, e, g, n, h)
          | inr (text, t) ↦
              let made = some-injective _ _ (simp (e, g, t) at h) in
              let labels = ap (λ (r : ParseReport). r.labels) made in
              set_orders-get 0 _ i (rw (← labels) at at) ∙ omega arith
        ]
      ]
    ]
