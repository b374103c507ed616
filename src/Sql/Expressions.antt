-- ===== src/Sql/Expressions.antt =====
-- lib/endb_cst/src/sql.rs: the grammar, the parts of expressions.
use endb.Prelude.{[], ◌∷◌}
use endb.Peg.Syntax.{
  seq, ord, literal, non_terminal, neg, cut, star, plus, opt, end, ◌▹◌, Grammar, rule,
}

abbrev pub function_rules : Grammar
function_rules =
    rule "simple_func" (non_terminal "ident")
    ∷ rule "signed_number"
        (seq (opt (ord (literal "+" ▹ literal "-" ▹ end)) ▹ non_terminal "numeric_literal" ▹ end))
    ∷ rule "type_name" (
        seq (
          plus (seq (neg (non_terminal "column_constraint") ▹ non_terminal "ident" ▹ end))
          ▹ opt (
              seq (
                literal "("
                ▹ non_terminal "signed_number"
                ▹ opt (seq (literal "," ▹ non_terminal "signed_number" ▹ end))
                ▹ literal ")"
                ▹ end))
          ▹ end))
    ∷ rule "column_name" (non_terminal "ident")
    ∷ rule "expr_list"
        (seq (non_terminal "expr" ▹ star (seq (literal "," ▹ non_terminal "expr" ▹ end)) ▹ end))
    ∷ rule "column_name_list" (
        seq (
          literal "("
          ▹ non_terminal "column_name"
          ▹ star (seq (literal "," ▹ non_terminal "column_name" ▹ end))
          ▹ literal ")"
          ▹ end))
    ∷ rule "all_distinct" (ord (literal "ALL" ▹ literal "DISTINCT" ▹ end))
    ∷ rule "subquery" (seq (literal "(" ▹ non_terminal "select_stmt" ▹ literal ")" ▹ end))
    ∷ rule "scalar_subquery" (non_terminal "subquery")
    ∷ rule "paren_expr" (seq (literal "(" ▹ non_terminal "expr" ▹ literal ")" ▹ end))
    ∷ rule "extract_expr" (
        seq (
          literal "EXTRACT"
          ▹ cut (
              seq (
                literal "("
                ▹ non_terminal "datetime_field"
                ▹ literal "FROM"
                ▹ non_terminal "expr"
                ▹ literal ")"
                ▹ end))
          ▹ end))
    ∷ rule "cast_expr" (
        seq (
          literal "CAST"
          ▹ cut (
              seq (
                literal "("
                ▹ non_terminal "expr"
                ▹ literal "AS"
                ▹ non_terminal "type_name"
                ▹ literal ")"
                ▹ end))
          ▹ end))
    ∷ rule "position_expr" (
        seq (
          literal "POSITION"
          ▹ cut (
              seq (
                literal "("
                ▹ non_terminal "concat_expr"
                ▹ literal "IN"
                ▹ non_terminal "expr"
                ▹ literal ")"
                ▹ end))
          ▹ end))
    ∷ rule "substring_expr" (
        seq (
          literal "SUBSTRING"
          ▹ cut (
              seq (
                literal "("
                ▹ non_terminal "expr"
                ▹ opt (seq (literal "FROM" ▹ non_terminal "expr" ▹ end))
                ▹ opt (seq (literal "FOR" ▹ non_terminal "expr" ▹ end))
                ▹ literal ")"
                ▹ end))
          ▹ end))
    ∷ rule "filter_clause" (
        seq (
          literal "FILTER"
          ▹ cut (seq (literal "(" ▹ literal "WHERE" ▹ non_terminal "expr" ▹ literal ")" ▹ end))
          ▹ end))
    ∷ rule "aggregate_func" (
        ord (
          literal "ARRAY_AGG"
          ▹ literal "AVG"
          ▹ literal "COUNT"
          ▹ literal "GROUP_CONCAT"
          ▹ literal "MIN"
          ▹ literal "MAX"
          ▹ literal "OBJECT_AGG"
          ▹ literal "SUM"
          ▹ literal "TOTAL"
          ▹ end))
    ∷ rule "aggregate_function_invocation" (
        seq (
          non_terminal "aggregate_func"
          ▹ literal "("
          ▹ opt (non_terminal "all_distinct")
          ▹ ord (
              non_terminal "star"
              ▹ seq (non_terminal "expr_list" ▹ opt (non_terminal "order_by_clause") ▹ end)
              ▹ end)
          ▹ literal ")"
          ▹ opt (non_terminal "filter_clause")
          ▹ end))
    ∷ rule "simple_function_invocation" (
        seq (
          non_terminal "simple_func"
          ▹ literal "("
          ▹ opt (non_terminal "expr_list")
          ▹ literal ")"
          ▹ end))
    ∷ rule "exists_expr" (seq (literal "EXISTS" ▹ cut (non_terminal "subquery") ▹ end))
    ∷ rule "case_when_then_expr"
        (seq (literal "WHEN" ▹ non_terminal "expr" ▹ literal "THEN" ▹ non_terminal "expr" ▹ end))
    ∷ rule "case_else_expr" (seq (literal "ELSE" ▹ non_terminal "expr" ▹ end))
    ∷ rule "case_operand" (seq (neg (literal "WHEN") ▹ non_terminal "expr" ▹ end))
    ∷ rule "case_expr" (
        seq (
          literal "CASE"
          ▹ cut (
              seq (
                opt (non_terminal "case_operand")
                ▹ plus (non_terminal "case_when_then_expr")
                ▹ opt (non_terminal "case_else_expr")
                ▹ literal "END"
                ▹ end))
          ▹ end))
    ∷ rule "column_reference" (
        seq (
          opt (seq (non_terminal "table_name" ▹ literal "." ▹ neg (literal ".") ▹ end))
          ▹ non_terminal "column_name"
          ▹ end))
    ∷ []

abbrev pub construct_rules : Grammar
construct_rules =
    rule "spread_expr" (seq (ord (literal "..." ▹ literal ".." ▹ end) ▹ non_terminal "expr" ▹ end))
    ∷ rule "array_element" (ord (non_terminal "spread_expr" ▹ non_terminal "expr" ▹ end))
    ∷ rule "array_expr" (
        ord (
          seq (literal "ARRAY" ▹ non_terminal "subquery" ▹ end)
          ▹ seq (
              opt (literal "ARRAY")
              ▹ ord (
                  seq (literal "[" ▹ literal "]" ▹ end)
                  ▹ seq (
                      literal "["
                      ▹ non_terminal "array_element"
                      ▹ star (seq (literal "," ▹ non_terminal "array_element" ▹ end))
                      ▹ opt (literal ",")
                      ▹ literal "]"
                      ▹ end)
                  ▹ end)
              ▹ end)
          ▹ end))
    ∷ rule "computed_property" (seq (literal "[" ▹ non_terminal "expr" ▹ literal "]" ▹ end))
    ∷ rule "shorthand_property"
        (ord (non_terminal "column_reference" ▹ non_terminal "bind_parameter" ▹ end))
    ∷ rule "object_key" (
        ord (
          non_terminal "ident"
          ▹ non_terminal "string_literal"
          ▹ non_terminal "computed_property"
          ▹ end))
    ∷ rule "object_key_value_pair" (
        ord (
          seq (
            non_terminal "object_key"
            ▹ ord (literal ":" ▹ literal "=" ▹ end)
            ▹ non_terminal "expr"
            ▹ end)
          ▹ non_terminal "spread_expr"
          ▹ non_terminal "qualified_star"
          ▹ non_terminal "shorthand_property"
          ▹ end))
    ∷ rule "object_key_value_list" (
        seq (
          non_terminal "object_key_value_pair"
          ▹ star (seq (literal "," ▹ non_terminal "object_key_value_pair" ▹ end))
          ▹ opt (literal ",")
          ▹ end))
    ∷ rule "object_expr" (
        ord (
          seq (
            literal "OBJECT"
            ▹ literal "("
            ▹ opt (non_terminal "object_key_value_list")
            ▹ literal ")"
            ▹ end)
          ▹ seq (literal "{" ▹ opt (non_terminal "object_key_value_list") ▹ literal "}" ▹ end)
          ▹ end))
    ∷ rule "path_object_label" (seq (literal "." ▹ non_terminal "ident" ▹ end))
    ∷ rule "path_array_length" (literal "#")
    ∷ rule "path_array_index" (
        ord (
          seq (
            opt (seq (non_terminal "path_array_length" ▹ literal "-" ▹ end))
            ▹ non_terminal "numeric_literal"
            ▹ end)
          ▹ non_terminal "path_array_length"
          ▹ end))
    ∷ rule "path_array_access"
        (seq (literal "[" ▹ non_terminal "path_array_index" ▹ literal "]" ▹ end))
    ∷ rule "path_element"
        (ord (non_terminal "path_object_label" ▹ non_terminal "path_array_access" ▹ end))
    ∷ rule "path_expr" (seq (literal "$" ▹ star (non_terminal "path_element") ▹ end))
    ∷ []
