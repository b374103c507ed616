-- ===== src/Sql/Tables.antt =====
-- lib/endb_cst/src/sql.rs: the grammar, result columns, tables and joins.
use endb.Prelude.{[], ◌∷◌}
use endb.Peg.Syntax.{seq, ord, literal, non_terminal, neg, cut, star, opt, end, ◌▹◌, Grammar, rule}

abbrev pub column_rules : Grammar
column_rules =
    rule "column_alias" (non_terminal "ident")
    ∷ rule "table_name" (
        ord (
          seq (literal "INFORMATION_SCHEMA" ▹ literal "." ▹ non_terminal "ident" ▹ end)
          ▹ non_terminal "ident"
          ▹ end))
    ∷ rule "qualified_star"
        (seq (non_terminal "table_name" ▹ literal "." ▹ non_terminal "star" ▹ end))
    ∷ rule "star" (literal "*")
    ∷ rule "invalid_column_alias" (
        ord (
          literal "FROM"
          ▹ literal "WHERE"
          ▹ literal "GROUP"
          ▹ literal "HAVING"
          ▹ literal "ORDER"
          ▹ literal "LIMIT"
          ▹ literal "UNION"
          ▹ literal "INTERSECT"
          ▹ literal "EXCEPT"
          ▹ end))
    ∷ rule "result_column" (
        ord (
          seq (
            non_terminal "expr"
            ▹ opt (
                ord (
                  seq (literal "AS" ▹ cut (non_terminal "column_alias") ▹ end)
                  ▹ seq (
                      neg (non_terminal "invalid_column_alias") ▹ non_terminal "column_alias" ▹ end)
                  ▹ end))
            ▹ end)
          ▹ non_terminal "qualified_star"
          ▹ non_terminal "star"
          ▹ end))
    ∷ []

abbrev pub table_rules : Grammar
table_rules =
    rule "table_alias" (seq (non_terminal "ident" ▹ opt (non_terminal "column_name_list") ▹ end))
    ∷ rule "join_constraint" (
        ord (
          seq (literal "ON" ▹ non_terminal "expr" ▹ end)
          ▹ seq (literal "USING" ▹ non_terminal "column_name_list" ▹ end)
          ▹ end))
    ∷ rule "join_operator" (
        ord (
          literal ","
          ▹ seq (
              opt (
                ord (
                  seq (literal "LEFT" ▹ opt (literal "OUTER") ▹ end)
                  ▹ literal "INNER"
                  ▹ literal "CROSS"
                  ▹ end))
              ▹ literal "JOIN"
              ▹ end)
          ▹ end))
    ∷ rule "join_clause" (
        seq (
          non_terminal "table_or_subquery"
          ▹ star (
              seq (
                non_terminal "join_operator"
                ▹ non_terminal "table_or_subquery"
                ▹ opt (non_terminal "join_constraint")
                ▹ end))
          ▹ end))
    ∷ rule "system_time_clause" (
        seq (
          literal "FOR"
          ▹ cut (
              seq (
                literal "SYSTEM_TIME"
                ▹ ord (
                    literal "ALL"
                    ▹ seq (literal "AS" ▹ literal "OF" ▹ non_terminal "atom" ▹ end)
                    ▹ seq (
                        literal "FROM"
                        ▹ non_terminal "atom"
                        ▹ literal "TO"
                        ▹ non_terminal "atom"
                        ▹ end)
                    ▹ seq (
                        literal "BETWEEN"
                        ▹ non_terminal "atom"
                        ▹ literal "AND"
                        ▹ non_terminal "atom"
                        ▹ end)
                    ▹ end)
                ▹ end))
          ▹ end))
    ∷ rule "invalid_table_alias" (
        ord (
          literal "LEFT"
          ▹ literal "INNER"
          ▹ literal "CROSS"
          ▹ literal "JOIN"
          ▹ literal "WHERE"
          ▹ literal "GROUP"
          ▹ literal "HAVING"
          ▹ literal "ORDER"
          ▹ literal "LIMIT"
          ▹ literal "ON"
          ▹ literal "USING"
          ▹ literal "UNION"
          ▹ literal "INTERSECT"
          ▹ literal "EXCEPT"
          ▹ end))
    ∷ rule "with_ordinality" (seq (literal "WITH" ▹ literal "ORDINALITY" ▹ end))
    ∷ rule "table_function" (
        seq
          (non_terminal "simple_function_invocation" ▹ opt (non_terminal "with_ordinality") ▹ end))
    ∷ rule "not_indexed" (seq (literal "NOT" ▹ literal "INDEXED" ▹ end))
    ∷ rule "table_or_subquery" (
        ord (
          seq (
            opt (literal "LATERAL")
            ▹ non_terminal "table_function"
            ▹ opt (literal "AS")
            ▹ non_terminal "table_alias"
            ▹ end)
          ▹ seq (
              opt (literal "LATERAL")
              ▹ non_terminal "subquery"
              ▹ opt (literal "AS")
              ▹ non_terminal "table_alias"
              ▹ end)
          ▹ seq (
              non_terminal "table_name"
              ▹ opt (non_terminal "not_indexed")
              ▹ opt (non_terminal "system_time_clause")
              ▹ opt (
                  ord (
                    seq (literal "AS" ▹ cut (non_terminal "table_alias") ▹ end)
                    ▹ seq (
                        neg (non_terminal "invalid_table_alias") ▹ non_terminal "table_alias" ▹ end)
                    ▹ end))
              ▹ end)
          ▹ seq (literal "(" ▹ non_terminal "join_clause" ▹ literal ")" ▹ end)
          ▹ end))
    ∷ rule "from_clause" (seq (literal "FROM" ▹ non_terminal "join_clause" ▹ end))
    ∷ rule "where_clause" (seq (literal "WHERE" ▹ non_terminal "expr" ▹ end))
    ∷ rule "group_by_clause" (seq (literal "GROUP" ▹ literal "BY" ▹ non_terminal "expr_list" ▹ end))
    ∷ rule "having_clause" (seq (literal "HAVING" ▹ non_terminal "expr" ▹ end))
    ∷ []
