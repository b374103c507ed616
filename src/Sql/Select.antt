-- ===== src/Sql/Select.antt =====
-- lib/endb_cst/src/sql.rs: the grammar, queries.
use endb.Prelude.{[], ◌∷◌}
use endb.Peg.Syntax.{seq, ord, literal, non_terminal, star, opt, end, ◌▹◌, Grammar, rule}

abbrev pub select_rules : Grammar
select_rules =
    rule "values_stmt" (
      seq (
        literal "VALUES"
        ▹ non_terminal "paren_expr_list"
        ▹ star (seq (literal "," ▹ non_terminal "paren_expr_list" ▹ end))
        ▹ end))
    ∷ rule "objects_stmt" (
        seq (
          opt (literal "OBJECTS")
          ▹ non_terminal "object_expr"
          ▹ star (seq (literal "," ▹ non_terminal "object_expr" ▹ end))
          ▹ end))
    ∷ rule "result_expr_list" (
        seq (
          non_terminal "result_column"
          ▹ star (seq (literal "," ▹ non_terminal "result_column" ▹ end))
          ▹ end))
    ∷ rule "select_core" (
        ord (
          seq (
            literal "SELECT"
            ▹ opt (non_terminal "all_distinct")
            ▹ non_terminal "result_expr_list"
            ▹ opt (non_terminal "from_clause")
            ▹ opt (non_terminal "where_clause")
            ▹ opt (non_terminal "group_by_clause")
            ▹ opt (non_terminal "having_clause")
            ▹ end)
          ▹ non_terminal "values_stmt"
          ▹ non_terminal "objects_stmt"
          ▹ end))
    ∷ rule "compound_operator" (
        ord (
          seq (literal "UNION" ▹ opt (literal "ALL") ▹ end)
          ▹ literal "INTERSECT"
          ▹ literal "EXCEPT"
          ▹ end))
    ∷ rule "common_table_expression" (
        seq (
          non_terminal "table_name"
          ▹ opt (non_terminal "column_name_list")
          ▹ literal "AS"
          ▹ non_terminal "subquery"
          ▹ end))
    ∷ rule "with_clause" (
        seq (
          literal "WITH"
          ▹ opt (literal "RECURSIVE")
          ▹ non_terminal "common_table_expression"
          ▹ star (seq (literal "," ▹ non_terminal "common_table_expression" ▹ end))
          ▹ end))
    ∷ rule "ordering_term"
        (seq (non_terminal "expr" ▹ opt (ord (literal "ASC" ▹ literal "DESC" ▹ end)) ▹ end))
    ∷ rule "order_by_clause" (
        seq (
          literal "ORDER"
          ▹ literal "BY"
          ▹ non_terminal "ordering_term"
          ▹ star (seq (literal "," ▹ non_terminal "ordering_term" ▹ end))
          ▹ end))
    ∷ rule "limit_offset_clause" (
        seq (
          literal "LIMIT"
          ▹ non_terminal "expr"
          ▹ opt (seq (ord (literal "," ▹ literal "OFFSET" ▹ end) ▹ non_terminal "expr" ▹ end))
          ▹ end))
    ∷ rule "select_stmt" (
        seq (
          opt (non_terminal "with_clause")
          ▹ non_terminal "select_core"
          ▹ star (seq (non_terminal "compound_operator" ▹ non_terminal "select_core" ▹ end))
          ▹ opt (non_terminal "order_by_clause")
          ▹ opt (non_terminal "limit_offset_clause")
          ▹ end))
    ∷ []
