-- ===== src/Cst/Report/Labels.antt =====
-- lib/endb_cst/src/lib.rs, `parse_errors_to_string`: the labels of a group of errors.
pub mod Laws
use text.Mathlib.Text.{◌==◌ as str_eq}
use endb.Prelude.{
  ℕ, zero, suc, ◌+◌, ◌-◌, String, Bool, true, false, ◌&&◌, ◌||◌, Option, none, some, List, [], ◌∷◌,
  ◌++◌, length, ltb, leb, ◌==◌, if◌then◌else◌, last?,
}
use endb.Prelude.Text.{Str, codes, byte_len}
use endb.Cst.Event.{ParseErrorDescriptor, expected_literal, expected_pattern, labeled, unexpected}
use endb.Cst.Errors.{ParseError}
use endb.Cst.Report.Types.{ParseReportLabel, ParseReportColor, red, yellow, blue, text_eq}
use endb.Cst.Report.Sorting.{lex_le, sort, dedup}
use endb.Cst.Report.Found.{Unicode, uppercase}
use endb.Cst.Report.Groups.{Context}

-- a label with the defaults of `..ParseReportLabel::default()`
abbrev pub label_at : Str → ℕ → ℕ → Str → ParseReportColor → ParseReportLabel
label_at filename start stop msg color = record {
  filename = filename;
  start = start;
  stop = stop;
  msg = some msg;
  color = some color;
  order = 0;
  priority = 0;
}

-- the loop over the errors that are labels
unfoldable pub labeled_labels : Str → List ParseError → List ParseReportLabel
labeled_labels filename [] = []
labeled_labels filename (e ∷ es) =
    let rest = labeled_labels filename es in
    elim e.descriptor [
      | labeled label ↦ label_at filename e.start e.stop (codes label) yellow ∷ rest
      | _ ↦ rest
    ]

-- `e.context.last().map(|(label, _)| *label).unwrap_or("")`
abbrev pub last_label : List (String × ℕ) → Str
last_label context = elim (last? context) [ none ↦ [] | some c ↦ codes c.0 ]

-- the closure of the `flat_map`
unfoldable pub expected_of : ParseError → List Str
expected_of e = elim e.descriptor [
  | expected_literal literal ↦
      (if str_eq "," literal then codes "',' (comma)" else codes literal) ∷ []
  | expected_pattern _ ↦ last_label e.context ∷ []
  | labeled _ ↦ []
  | unexpected ↦ []
]

unfoldable pub all_expected : List ParseError → List Str
unfolding expected_of
all_expected [] = []
all_expected (e ∷ es) = expected_of e ++ all_expected es

-- `expected.sort(); expected.dedup();`
unfoldable pub expected : List ParseError → List Str
unfolding all_expected sort dedup lex_le
expected errs = dedup text_eq (sort lex_le (all_expected errs))

unfoldable pub starts_with : Str → Str → Bool
starts_with s [] = true
starts_with [] (d ∷ t) = false
starts_with (c ∷ s) (d ∷ t) = (c == d) && starts_with s t

-- `expected.iter().find(|e| found.len() > 1 && e.starts_with(&found.to_uppercase()))`
unfoldable pub suggestion : Unicode → Str → List Str → Option Str
unfolding uppercase starts_with byte_len
suggestion u text [] = none
suggestion u text (e ∷ es) =
    if ltb 1 (byte_len text) && starts_with e (uppercase u text)
    then some e
    else suggestion u text es

-- `errs.iter().any(|e| e.descriptor == ParseErrorDescriptor::Unexpected)`
abbrev pub is_unexpected : ParseErrorDescriptor → Bool
is_unexpected unexpected = true
is_unexpected _ = false

abbrev pub any_unexpected : List ParseError → Bool
any_unexpected [] = false
any_unexpected (e ∷ es) = is_unexpected e.descriptor || any_unexpected es

-- `expected.chunks(5)`: `n` more fit in the chunk that `acc` begins
unfoldable pub chunks_from : ℕ → List Str → List Str → List (List Str)
chunks_from n acc [] = acc ∷ []
chunks_from zero acc (x ∷ xs) = acc ∷ chunks_from 4 (x ∷ []) xs
chunks_from (suc n) acc (x ∷ xs) = chunks_from n (acc ++ x ∷ []) xs

unfoldable pub chunks : List Str → List (List Str)
unfolding chunks_from
chunks [] = []
chunks (x ∷ xs) = chunks_from 4 (x ∷ []) xs

-- `join(", ")`
unfoldable pub join : List Str → Str
join [] = []
join (x ∷ []) = x
join (x ∷ y ∷ ys) = x ++ (codes ", " ++ join (y ∷ ys))

-- the message of the chunk at `idx` of `n`
unfoldable pub expected_message : ℕ → ℕ → List Str → Str
unfolding join
expected_message idx n chunk =
    (if idx == 0 then codes "expected" else codes " ")
    ++ (codes " "
        ++ ((if (idx == 0) && ltb 1 (length chunk) then codes "one of " else [])
            ++ (join chunk ++ (if idx == n - 1 then [] else codes ","))))

unfoldable pub expected_labels : Str → ℕ → ℕ → ℕ → ℕ → List (List Str) → List ParseReportLabel
unfolding expected_message
expected_labels filename start stop idx n [] = []
expected_labels filename start stop idx n (chunk ∷ rest) =
    label_at filename start stop (expected_message idx n chunk) red
    ∷ expected_labels filename start stop (suc idx) n rest

-- the position of the first entry with the label, or 0
unfoldable pub label_pos : String → List (String × ℕ) → ℕ
label_pos label [] = 0
label_pos label ((l, pos) ∷ context) = if str_eq l label then pos else label_pos label context

abbrev pub first_context : List ParseError → List (String × ℕ)
first_context [] = []
first_context (e ∷ _) = e.context

-- the label of the rule around the errors; `errs[0]` is there, since no group is empty
unfoldable pub context_labels : Str → ℕ → Context → List ParseError → List ParseReportLabel
unfolding label_pos
context_labels filename start context errs = elim (last? context) [
  | none ↦ []
  | some label ↦
      label_at filename (label_pos label (first_context errs)) start (codes " in " ++ codes label)
        blue
      ∷ []
]

-- `unexpected_message`, where there is nothing expected
unfoldable pub unexpected_labels :
    Str → ℕ → ℕ → Str → List Str → List ParseError → List ParseReportLabel
unexpected_labels filename start stop message [] errs =
    if any_unexpected errs then label_at filename start stop message red ∷ [] else []
unexpected_labels filename start stop message (e ∷ es) errs = []

-- the labels that one round of the loop collects
unfoldable pub group_labels : Str → ℕ → ℕ → Str → Context → List ParseError → List ParseReportLabel
unfolding labeled_labels unexpected_labels expected_labels chunks expected context_labels
group_labels filename start stop message context errs =
    let parts = chunks (expected errs) in
    labeled_labels filename errs
    ++ (unexpected_labels filename start stop message (expected errs) errs
        ++ (expected_labels filename start stop 0 (length parts) parts
            ++ context_labels filename start context errs))
