-- ===== src/Sql/Schema.antt =====
-- lib/endb_cst/src/sql.rs: the grammar, schema statements.
use endb.Prelude.{[], ◌∷◌}
use endb.Peg.Syntax.{seq, ord, literal, non_terminal, neg, star, opt, end, ◌▹◌, Grammar, rule}

abbrev pub create_rules : Grammar
create_rules =
    rule "index_name" (non_terminal "ident")
    ∷ rule "indexed_column"
        (seq (non_terminal "column_name" ▹ opt (ord (literal "ASC" ▹ literal "DESC" ▹ end)) ▹ end))
    ∷ rule "create_index_stmt" (
        seq (
          literal "CREATE"
          ▹ opt (literal "UNIQUE")
          ▹ literal "INDEX"
          ▹ non_terminal "index_name"
          ▹ literal "ON"
          ▹ non_terminal "table_name"
          ▹ literal "("
          ▹ non_terminal "indexed_column"
          ▹ star (seq (literal "," ▹ non_terminal "indexed_column" ▹ end))
          ▹ literal ")"
          ▹ end))
    ∷ rule "view_name" (non_terminal "ident")
    ∷ rule "create_view_stmt" (
        seq (
          literal "CREATE"
          ▹ opt (ord (literal "TEMPORARY" ▹ literal "TEMP" ▹ end))
          ▹ literal "VIEW"
          ▹ non_terminal "view_name"
          ▹ opt (non_terminal "column_name_list")
          ▹ literal "AS"
          ▹ non_terminal "select_stmt"
          ▹ end))
    ∷ rule "column_constraint"
        (ord (seq (literal "PRIMARY" ▹ literal "KEY" ▹ end) ▹ literal "UNIQUE" ▹ end))
    ∷ rule "column_def" (
        seq (
          non_terminal "column_name"
          ▹ neg (literal "KEY")
          ▹ non_terminal "type_name"
          ▹ opt (non_terminal "column_constraint")
          ▹ end))
    ∷ rule "foreign_key_clause" (
        seq (
          literal "REFERENCES" ▹ non_terminal "table_name" ▹ non_terminal "column_name_list" ▹ end))
    ∷ rule "table_constraint" (
        ord (
          seq (literal "PRIMARY" ▹ literal "KEY" ▹ non_terminal "column_name_list" ▹ end)
          ▹ seq (
              literal "FOREIGN"
              ▹ literal "KEY"
              ▹ non_terminal "column_name_list"
              ▹ non_terminal "foreign_key_clause"
              ▹ end)
          ▹ end))
    ∷ rule "create_table_stmt" (
        seq (
          literal "CREATE"
          ▹ literal "TABLE"
          ▹ non_terminal "table_name"
          ▹ literal "("
          ▹ non_terminal "column_def"
          ▹ star (seq (literal "," ▹ non_terminal "column_def" ▹ end))
          ▹ star (seq (literal "," ▹ non_terminal "table_constraint" ▹ end))
          ▹ literal ")"
          ▹ end))
    ∷ rule "assertion_name" (non_terminal "ident")
    ∷ rule "create_assertion_stmt" (
        seq (
          literal "CREATE"
          ▹ literal "ASSERTION"
          ▹ non_terminal "assertion_name"
          ▹ literal "CHECK"
          ▹ literal "("
          ▹ non_terminal "expr"
          ▹ literal ")"
          ▹ end))
    ∷ []

abbrev pub drop_rules : Grammar
drop_rules =
    rule "if_exists" (seq (literal "IF" ▹ literal "EXISTS" ▹ end))
    ∷ rule "drop_assertion_stmt" (
        seq (
          literal "DROP"
          ▹ literal "ASSERTION"
          ▹ opt (non_terminal "if_exists")
          ▹ non_terminal "assertion_name"
          ▹ end))
    ∷ rule "drop_index_stmt" (
        seq (
          literal "DROP"
          ▹ literal "INDEX"
          ▹ opt (non_terminal "if_exists")
          ▹ non_terminal "index_name"
          ▹ end))
    ∷ rule "drop_table_stmt" (
        seq (
          literal "DROP"
          ▹ literal "TABLE"
          ▹ opt (non_terminal "if_exists")
          ▹ non_terminal "table_name"
          ▹ end))
    ∷ rule "drop_view_stmt" (
        seq (
          literal "DROP"
          ▹ literal "VIEW"
          ▹ opt (non_terminal "if_exists")
          ▹ non_terminal "view_name"
          ▹ end))
    ∷ []
