-- ===== src/Sql/Statements.antt =====
-- lib/endb_cst/src/sql.rs: the grammar, transactions and the list of statements.
use endb.Prelude.{[], ◌∷◌}
use endb.Peg.Syntax.{
  seq, ord, pattern, literal, non_terminal, neg, star, opt, end, ◌▹◌, Grammar, hidden_rule, rule,
}

abbrev pub transaction_rules : Grammar
transaction_rules =
    rule "begin_stmt" (seq (literal "BEGIN" ▹ opt (literal "TRANSACTION") ▹ end))
    ∷ rule "commit_stmt"
        (seq (ord (literal "COMMIT" ▹ literal "END" ▹ end) ▹ opt (literal "TRANSACTION") ▹ end))
    ∷ rule "rollback_stmt" (
        seq (
          literal "ROLLBACK"
          ▹ opt (literal "TRANSACTION")
          ▹ opt
              (seq (literal "TO" ▹ opt (literal "SAVEPOINT") ▹ non_terminal "savepoint_name" ▹ end))
          ▹ end))
    ∷ rule "savepoint_name" (
        ord (
          non_terminal "ident"
          ▹ non_terminal "string_literal"
          ▹ non_terminal "bind_parameter"
          ▹ end))
    ∷ rule "savepoint_stmt" (seq (literal "SAVEPOINT" ▹ opt (non_terminal "savepoint_name") ▹ end))
    ∷ rule "release_stmt"
        (seq (literal "RELEASE" ▹ opt (literal "SAVEPOINT") ▹ non_terminal "savepoint_name" ▹ end))
    ∷ []

abbrev pub statement_rules : Grammar
statement_rules =
    hidden_rule "sql_stmt" (
      ord (
        non_terminal "select_stmt"
        ▹ non_terminal "insert_stmt"
        ▹ non_terminal "delete_stmt"
        ▹ non_terminal "erase_stmt"
        ▹ non_terminal "update_stmt"
        ▹ non_terminal "create_assertion_stmt"
        ▹ non_terminal "create_index_stmt"
        ▹ non_terminal "create_view_stmt"
        ▹ non_terminal "create_table_stmt"
        ▹ non_terminal "drop_assertion_stmt"
        ▹ non_terminal "drop_index_stmt"
        ▹ non_terminal "drop_table_stmt"
        ▹ non_terminal "drop_view_stmt"
        ▹ non_terminal "begin_stmt"
        ▹ non_terminal "commit_stmt"
        ▹ non_terminal "rollback_stmt"
        ▹ non_terminal "savepoint_stmt"
        ▹ non_terminal "release_stmt"
        ▹ end))
    ∷ rule "sql_stmt_list" (
        seq (
          pattern "\\A"
          ▹ non_terminal "sql_stmt"
          ▹ star (seq (literal ";" ▹ non_terminal "sql_stmt" ▹ end))
          ▹ opt (literal ";")
          ▹ neg (pattern "\\A.")
          ▹ end))
    ∷ []
