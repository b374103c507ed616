-- ===== src/Sql/Grammar.antt =====
-- lib/endb_cst/src/sql.rs: the whole grammar.
use endb.Prelude.{◌++◌}
use endb.Peg.Syntax.{Grammar}
use endb.Sql.Literals.{literal_rules}
use endb.Sql.Expressions.{function_rules, construct_rules}
use endb.Sql.Operators.{atom_rules, operator_rules}
use endb.Sql.Tables.{column_rules, table_rules}
use endb.Sql.Select.{select_rules}
use endb.Sql.Modify.{update_rules}
use endb.Sql.Schema.{create_rules, drop_rules}
use endb.Sql.Statements.{transaction_rules, statement_rules}

abbrev pub sql_grammar : Grammar
sql_grammar =
    literal_rules ++ function_rules ++ construct_rules ++ atom_rules ++ operator_rules
    ++ column_rules ++ table_rules ++ select_rules ++ update_rules ++ create_rules ++ drop_rules
    ++ transaction_rules ++ statement_rules
