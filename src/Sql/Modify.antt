-- ===== src/Sql/Modify.antt =====
-- lib/endb_cst/src/sql.rs: the grammar, data modification.
use endb.Prelude.{[], ◌∷◌}
use endb.Peg.Syntax.{seq, ord, literal, non_terminal, star, opt, end, ◌▹◌, Grammar, rule}

abbrev pub update_rules : Grammar
update_rules =
    rule "update_set_assignment" (
      seq (
        ord (non_terminal "column_name" ▹ non_terminal "path_expr" ▹ end)
        ▹ literal "="
        ▹ non_terminal "expr"
        ▹ end))
    ∷ rule "update_set_clause" (
        seq (
          literal "SET"
          ▹ non_terminal "update_set_assignment"
          ▹ star (seq (literal "," ▹ non_terminal "update_set_assignment" ▹ end))
          ▹ end))
    ∷ rule "update_remove_clause" (
        seq (
          ord (literal "UNSET" ▹ literal "REMOVE" ▹ end)
          ▹ ord (non_terminal "column_name" ▹ non_terminal "path_expr" ▹ end)
          ▹ star (
              seq (
                literal ","
                ▹ ord (non_terminal "column_name" ▹ non_terminal "path_expr" ▹ end)
                ▹ end))
          ▹ end))
    ∷ rule "update_patch_clause" (seq (opt (literal "PATCH") ▹ non_terminal "object_expr" ▹ end))
    ∷ rule "update_where_clause" (seq (literal "WHERE" ▹ non_terminal "expr" ▹ end))
    ∷ rule "update_clause" (
        seq (
          opt (non_terminal "update_set_clause")
          ▹ opt (non_terminal "update_remove_clause")
          ▹ opt (non_terminal "update_patch_clause")
          ▹ opt (non_terminal "update_where_clause")
          ▹ end))
    ∷ rule "upsert_clause" (
        seq (
          literal "ON"
          ▹ literal "CONFLICT"
          ▹ non_terminal "column_name_list"
          ▹ literal "DO"
          ▹ ord (
              literal "NOTHING" ▹ seq (literal "UPDATE" ▹ non_terminal "update_clause" ▹ end) ▹ end)
          ▹ end))
    ∷ rule "or_replace" (seq (literal "OR" ▹ literal "REPLACE" ▹ end))
    ∷ rule "insert_stmt" (
        seq (
          literal "INSERT"
          ▹ opt (non_terminal "or_replace")
          ▹ literal "INTO"
          ▹ non_terminal "table_name"
          ▹ opt (non_terminal "column_name_list")
          ▹ non_terminal "select_stmt"
          ▹ opt (non_terminal "upsert_clause")
          ▹ end))
    ∷ rule "delete_stmt" (
        seq (
          literal "DELETE"
          ▹ literal "FROM"
          ▹ non_terminal "table_name"
          ▹ opt (seq (literal "WHERE" ▹ non_terminal "expr" ▹ end))
          ▹ end))
    ∷ rule "erase_stmt" (
        seq (
          literal "ERASE"
          ▹ literal "FROM"
          ▹ non_terminal "table_name"
          ▹ opt (seq (literal "WHERE" ▹ non_terminal "expr" ▹ end))
          ▹ end))
    ∷ rule "update_stmt"
        (seq (literal "UPDATE" ▹ non_terminal "table_name" ▹ non_terminal "update_clause" ▹ end))
    ∷ []
