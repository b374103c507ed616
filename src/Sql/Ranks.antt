-- ===== src/Sql/Ranks.antt =====
-- lib/endb_cst/src/sql.rs: the ranks that show the grammar well-formed.
use text.Mathlib.Text.{◌==◌}
use endb.Prelude.{ℕ, String, true, not, ◌||◌, List, [], ◌∷◌, if◌then◌else◌, ◌≡◌, refl}
use endb.Peg.Leaf.{whitespace}
use endb.Peg.Syntax.{find_rule}
use endb.Peg.WellFormed.{Analysis, well_formed}
use endb.Sql.Grammar.{sql_grammar}

unfoldable pub rank_of : String → List (String × ℕ) → ℕ
rank_of id [] = 0
rank_of id ((name, n) ∷ ranks) = if name == id then n else rank_of id ranks

-- the rules that call rules before they consume, by the longest chain of such calls
abbrev ranks : List (String × ℕ)
ranks =
    ("literal", 1)
    ∷ ("simple_func", 1)
    ∷ ("signed_number", 1)
    ∷ ("type_name", 1)
    ∷ ("column_name", 1)
    ∷ ("expr_list", 16)
    ∷ ("scalar_subquery", 1)
    ∷ ("aggregate_function_invocation", 1)
    ∷ ("simple_function_invocation", 2)
    ∷ ("case_operand", 16)
    ∷ ("column_reference", 2)
    ∷ ("array_element", 16)
    ∷ ("shorthand_property", 3)
    ∷ ("object_key", 1)
    ∷ ("object_key_value_pair", 4)
    ∷ ("object_key_value_list", 5)
    ∷ ("path_array_index", 1)
    ∷ ("path_element", 1)
    ∷ ("atom", 3)
    ∷ ("property_access", 1)
    ∷ ("access_expr", 4)
    ∷ ("unary_expr", 5)
    ∷ ("concat_expr", 6)
    ∷ ("mul_expr", 7)
    ∷ ("add_expr", 8)
    ∷ ("bit_expr", 9)
    ∷ ("rel_expr", 10)
    ∷ ("equal_expr", 11)
    ∷ ("not_expr", 12)
    ∷ ("and_expr", 13)
    ∷ ("or_expr", 14)
    ∷ ("expr", 15)
    ∷ ("column_alias", 1)
    ∷ ("table_name", 1)
    ∷ ("qualified_star", 2)
    ∷ ("result_column", 16)
    ∷ ("table_alias", 1)
    ∷ ("join_clause", 5)
    ∷ ("table_function", 3)
    ∷ ("table_or_subquery", 4)
    ∷ ("objects_stmt", 1)
    ∷ ("result_expr_list", 17)
    ∷ ("select_core", 2)
    ∷ ("common_table_expression", 2)
    ∷ ("ordering_term", 16)
    ∷ ("select_stmt", 3)
    ∷ ("update_set_assignment", 2)
    ∷ ("update_patch_clause", 1)
    ∷ ("update_clause", 2)
    ∷ ("index_name", 1)
    ∷ ("indexed_column", 2)
    ∷ ("view_name", 1)
    ∷ ("column_def", 2)
    ∷ ("assertion_name", 1)
    ∷ ("savepoint_name", 1)
    ∷ ("sql_stmt", 4)
    ∷ ("sql_stmt_list", 5)
    ∷ []

abbrev pub sql_analysis : Analysis
sql_analysis = record {
  consuming_pattern = λ p. not (p == "\\A" || p == whitespace);
  consuming_rule = λ id. not (id == "update_clause");
  rank = λ id. rank_of id ranks;
  top = 18;
  size_bound = 218;
}

-- No rule reaches itself before it consumes, and nothing that may match the empty text is repeated.
pub sql_well_formed : well_formed sql_analysis sql_grammar ≡ true
unfolding well_formed find_rule rank_of
sql_well_formed = refl
