-- ===== src/Sql/Operators.antt =====
-- lib/endb_cst/src/sql.rs: the grammar, expressions by precedence.
use endb.Prelude.{[], ◌∷◌}
use endb.Peg.Syntax.{
  seq, ord, literal, non_terminal, cut, star, opt, end, ◌▹◌, Grammar, hidden_rule, rule,
}

abbrev pub atom_rules : Grammar
atom_rules =
    hidden_rule "atom" (
      ord (
        non_terminal "literal"
        ▹ non_terminal "bind_parameter"
        ▹ non_terminal "scalar_subquery"
        ▹ non_terminal "paren_expr"
        ▹ non_terminal "extract_expr"
        ▹ non_terminal "cast_expr"
        ▹ non_terminal "position_expr"
        ▹ non_terminal "array_expr"
        ▹ non_terminal "object_expr"
        ▹ non_terminal "path_expr"
        ▹ non_terminal "case_expr"
        ▹ non_terminal "exists_expr"
        ▹ non_terminal "aggregate_function_invocation"
        ▹ non_terminal "simple_function_invocation"
        ▹ non_terminal "substring_expr"
        ▹ non_terminal "column_reference"
        ▹ end))
    ∷ rule "paren_expr_list" (seq (literal "(" ▹ non_terminal "expr_list" ▹ literal ")" ▹ end))
    ∷ rule "empty_list" (seq (literal "(" ▹ literal ")" ▹ end))
    ∷ rule "distinct_from" (seq (literal "DISTINCT" ▹ literal "FROM" ▹ end))
    ∷ rule "quantified_operator" (ord (literal "ALL" ▹ literal "ANY" ▹ literal "SOME" ▹ end))
    ∷ rule "property_field_access" (seq (literal "." ▹ non_terminal "ident" ▹ end))
    ∷ rule "property_recursive_field_access" (seq (literal ".." ▹ non_terminal "ident" ▹ end))
    ∷ rule "property_bracket_access" (seq (literal "[" ▹ non_terminal "expr" ▹ literal "]" ▹ end))
    ∷ rule "property_bracket_wildcard_access"
        (seq (literal "[" ▹ non_terminal "star" ▹ literal "]" ▹ end))
    ∷ rule "property_recursive_bracket_access" (
        seq (
          literal ".."
          ▹ ord (
              non_terminal "property_bracket_access"
              ▹ non_terminal "property_bracket_wildcard_access"
              ▹ end)
          ▹ end))
    ∷ []

abbrev pub operator_rules : Grammar
operator_rules =
    hidden_rule "property_access" (
      ord (
        non_terminal "property_field_access"
        ▹ non_terminal "property_recursive_field_access"
        ▹ non_terminal "property_bracket_access"
        ▹ non_terminal "property_bracket_wildcard_access"
        ▹ non_terminal "property_recursive_bracket_access"
        ▹ end))
    ∷ hidden_rule "access_expr"
        (seq (non_terminal "atom" ▹ star (non_terminal "property_access") ▹ end))
    ∷ hidden_rule "unary_expr" (
        seq (
          star (ord (literal "+" ▹ literal "-" ▹ literal "~" ▹ end))
          ▹ non_terminal "access_expr"
          ▹ end))
    ∷ hidden_rule "concat_expr" (
        seq (
          non_terminal "unary_expr"
          ▹ star (seq (literal "||" ▹ non_terminal "unary_expr" ▹ end))
          ▹ end))
    ∷ hidden_rule "mul_expr" (
        seq (
          non_terminal "concat_expr"
          ▹ star (
              seq (
                ord (literal "*" ▹ literal "/" ▹ literal "%" ▹ end)
                ▹ non_terminal "concat_expr"
                ▹ end))
          ▹ end))
    ∷ hidden_rule "add_expr" (
        seq (
          non_terminal "mul_expr"
          ▹ star (seq (ord (literal "+" ▹ literal "-" ▹ end) ▹ non_terminal "mul_expr" ▹ end))
          ▹ end))
    ∷ hidden_rule "bit_expr" (
        seq (
          non_terminal "add_expr"
          ▹ star (
              seq (
                ord (literal "<<" ▹ literal ">>" ▹ literal "&" ▹ literal "|" ▹ end)
                ▹ non_terminal "add_expr"
                ▹ end))
          ▹ end))
    ∷ hidden_rule "rel_expr" (
        seq (
          non_terminal "bit_expr"
          ▹ star (
              seq (
                ord (literal "<=" ▹ literal "<" ▹ literal ">=" ▹ literal ">" ▹ end)
                ▹ ord (
                    seq (non_terminal "quantified_operator" ▹ non_terminal "subquery" ▹ end)
                    ▹ non_terminal "bit_expr"
                    ▹ end)
                ▹ end))
          ▹ end))
    ∷ hidden_rule "equal_expr" (
        seq (
          non_terminal "rel_expr"
          ▹ star (
              ord (
                seq (
                  ord (literal "==" ▹ literal "=" ▹ literal "!=" ▹ literal "<>" ▹ end)
                  ▹ ord (
                      seq (non_terminal "quantified_operator" ▹ non_terminal "subquery" ▹ end)
                      ▹ non_terminal "rel_expr"
                      ▹ end)
                  ▹ end)
                ▹ seq (
                    ord (
                      literal "OVERLAPS"
                      ▹ literal "EQUALS"
                      ▹ literal "CONTAINS"
                      ▹ seq (opt (literal "IMMEDIATELY") ▹ literal "PRECEDES" ▹ end)
                      ▹ seq (opt (literal "IMMEDIATELY") ▹ literal "SUCCEEDS" ▹ end)
                      ▹ end)
                    ▹ non_terminal "rel_expr"
                    ▹ end)
                ▹ seq (
                    opt (literal "NOT")
                    ▹ ord (
                        seq (
                          literal "LIKE"
                          ▹ cut (
                              seq (
                                non_terminal "rel_expr"
                                ▹ opt (seq (literal "ESCAPE" ▹ non_terminal "rel_expr" ▹ end))
                                ▹ end))
                          ▹ end)
                        ▹ seq (
                            ord (
                              literal "GLOB"
                              ▹ literal "REGEXP"
                              ▹ literal "MATCH"
                              ▹ literal "@>"
                              ▹ end)
                            ▹ cut (non_terminal "rel_expr")
                            ▹ end)
                        ▹ end)
                    ▹ end)
                ▹ seq (
                    literal "IS"
                    ▹ cut (
                        seq (
                          opt (literal "NOT")
                          ▹ opt (non_terminal "distinct_from")
                          ▹ ord (literal "UNKNOWN" ▹ non_terminal "rel_expr" ▹ end)
                          ▹ end))
                    ▹ end)
                ▹ seq (literal "NOT" ▹ literal "NULL" ▹ end)
                ▹ seq (
                    opt (literal "NOT")
                    ▹ literal "BETWEEN"
                    ▹ cut (
                        seq
                          (non_terminal "rel_expr" ▹ literal "AND" ▹ non_terminal "rel_expr" ▹ end))
                    ▹ end)
                ▹ seq (
                    opt (literal "NOT")
                    ▹ literal "IN"
                    ▹ cut (
                        ord (
                          non_terminal "subquery"
                          ▹ non_terminal "paren_expr_list"
                          ▹ non_terminal "empty_list"
                          ▹ non_terminal "table_name"
                          ▹ end))
                    ▹ end)
                ▹ end))
          ▹ end))
    ∷ hidden_rule "not_expr" (seq (star (literal "NOT") ▹ non_terminal "equal_expr" ▹ end))
    ∷ hidden_rule "and_expr" (
        seq (
          non_terminal "not_expr"
          ▹ star (seq (literal "AND" ▹ non_terminal "not_expr" ▹ end))
          ▹ end))
    ∷ hidden_rule "or_expr" (
        seq (
          non_terminal "and_expr"
          ▹ star (seq (literal "OR" ▹ non_terminal "and_expr" ▹ end))
          ▹ end))
    ∷ hidden_rule "expr" (non_terminal "or_expr")
    ∷ []
