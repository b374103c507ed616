-- ===== src/Sql/Literals.antt =====
-- lib/endb_cst/src/sql.rs: the grammar, literals: names, numbers, texts, blobs, dates, intervals.
use endb.Prelude.{[], ◌∷◌}
use endb.Peg.Syntax.{
  seq, ord, pattern, literal, non_terminal, opt, end, ◌▹◌, Grammar, hidden_rule, rule,
}

abbrev pub literal_rules : Grammar
literal_rules =
    rule "ident" (pattern "\\A\\b\\p{XID_START}\\p{XID_CONTINUE}*\\b")
    ∷ rule "numeric_literal" (
        pattern
          "\\A(0[xX][0-9A-Fa-f]+|[0-9]+(\\.[0-9]*)?([eE][-+]?[0-9]+)?|\\.[0-9]+([eE][-+]?[0-9]+)?)")
    ∷ rule "string_literal" (pattern "\\A(?s)(\"(?:[^\\\\\"]|\\\\.)*\"|'(?:[^\\\\']|''|\\\\.)*')")
    ∷ rule "blob_literal" (pattern "\\A(\\b[xX]'[0-9A-Fa-f]*?'|[xX]\"[0-9A-Fa-f]*?\")")
    ∷ rule "iso_time_literal" (pattern "\\A\\d{2}:\\d{2}:\\d{2}(:?\\.\\d+)?")
    ∷ rule "iso_date_literal" (pattern "\\A\\d{4}-\\d{2}-\\d{2}")
    ∷ rule "iso_timestamp_literal"
        (pattern "\\A\\d{4}-\\d{2}-\\d{2}T\\d{2}:\\d{2}:\\d{2}(:?\\.\\d+)?Z?")
    ∷ rule "time_literal" (
        seq (
          literal "TIME"
          ▹ pattern "\\A('\\d{2}:\\d{2}:\\d{2}(:?\\.\\d+)?'|\"\\d{2}:\\d{2}:\\d{2}(:?\\.\\d+)?\")"
          ▹ end))
    ∷ rule "date_literal" (
        seq (literal "DATE" ▹ pattern "\\A('\\d{4}-\\d{2}-\\d{2}'|\"\\d{4}-\\d{2}-\\d{2}\")" ▹ end))
    ∷ rule "timestamp_literal" (
        seq (
          literal "TIMESTAMP"
          ▹ pattern
              "\\A('\\d{4}-\\d{2}-\\d{2}[T ]\\d{2}:\\d{2}:\\d{2}(:?\\.\\d+)?Z?'|\"\\d{4}-\\d{2}-\\d{2}[T ]\\d{2}:\\d{2}:\\d{2}(:?\\.\\d+)?Z?\")"
          ▹ end))
    ∷ rule "iso_duration_literal" (
        ord (
          pattern "\\AP(\\d+(:?[,.]\\d+)?[YMD])+(T(\\d+(:?[,.]\\d+)?[HMS])+)?"
          ▹ pattern "\\APT(\\d+(:?[,.]\\d+)?[HMS])+"
          ▹ end))
    ∷ rule "datetime_field" (
        ord (
          literal "YEAR"
          ▹ literal "MONTH"
          ▹ literal "DAY"
          ▹ literal "HOUR"
          ▹ literal "MINUTE"
          ▹ literal "SECOND"
          ▹ end))
    ∷ rule "interval_literal" (
        seq (
          literal "INTERVAL"
          ▹ pattern
              "\\A('\\d+(:?-\\d+)?'|\"\\d+(:?-\\d+)?\")|('(:?\\d+ )?\\d{2}(:?\\:\\d{2})?(:?\\:\\d{2})?(:?\\.\\d+)?'|\"(:?\\d+ )?\\d{2}(:?\\:\\d{2})?(:?\\:\\d{2})?(:?\\.\\d+)?\")"
          ▹ non_terminal "datetime_field"
          ▹ opt (seq (literal "TO" ▹ non_terminal "datetime_field" ▹ end))
          ▹ end))
    ∷ hidden_rule "literal" (
        ord (
          non_terminal "iso_timestamp_literal"
          ▹ non_terminal "iso_date_literal"
          ▹ non_terminal "iso_time_literal"
          ▹ non_terminal "iso_duration_literal"
          ▹ non_terminal "timestamp_literal"
          ▹ non_terminal "date_literal"
          ▹ non_terminal "time_literal"
          ▹ non_terminal "interval_literal"
          ▹ non_terminal "numeric_literal"
          ▹ non_terminal "string_literal"
          ▹ non_terminal "blob_literal"
          ▹ literal "NULL"
          ▹ literal "TRUE"
          ▹ literal "FALSE"
          ▹ literal "CURRENT_TIME"
          ▹ literal "CURRENT_DATE"
          ▹ literal "CURRENT_TIMESTAMP"
          ▹ end))
    ∷ rule "bind_parameter" (pattern "\\A(:?\\?|:\\p{XID_START}\\p{XID_CONTINUE}*\\b)")
    ∷ []
