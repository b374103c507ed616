-- ===== src/Sql/Meaning.antt =====
-- lib/endb_cst/src/sql.rs: what `sql_stmt_list` returns, against the meaning of the grammar.
use endb.Prelude.{ℕ, ◌<◌, ◌≤◌, ◌≡◌, refl, ◌⊎◌, arith}
use endb.Prelude.Text.{Str, byte_len}
use endb.Prelude.Slices.{slice_from-zero}
use endb.Cst.Event.{ParseState, ParseResult}
use endb.Peg.Syntax.{non_terminal, find_rule}
use endb.Peg.Outcome.{done, fault, overflow}
use endb.Peg.Leaf.{Crates, u32_mod}
use endb.Peg.Progress.{RegexLaws}
use endb.Peg.Meaning.{Answer}
use endb.Peg.Meaning.Complete.{Says, Means, rule-Means}
use endb.Sql.Grammar.{sql_grammar}
use endb.Sql.Ranks.{sql_analysis, sql_well_formed, rank_of}
use endb.Sql.Parse.{sql_stmt_list, sql_fuel}

-- Every input shorter than 2^32 bytes has one meaning as a list of SQL statements, and the parser
-- returns what it says, or the number of events outgrew a `u32`, given regular expressions that keep
-- the stated laws and the stated fuel.
pub sql_stmt_list-Means :
    (lib : Crates) (input : Str) (st : ParseState) (fuel : ℕ)
    → RegexLaws lib sql_analysis
    → byte_len input < u32_mod
    → sql_fuel input ≤ fuel
    → ((r : ParseResult) × (st' : ParseState) × (o : Answer) × (sql_stmt_list lib fuel input 0 st
          ≡ done r st')
        × Says input o r
        × Means lib sql_grammar (non_terminal "sql_stmt_list") input o)
      ⊎ (sql_stmt_list lib fuel input 0 st ≡ fault overflow)
unfolding sql_stmt_list rank_of find_rule
sql_stmt_list-Means lib input st fuel laws small h =
    rule-Means lib sql_grammar sql_analysis input laws sql_well_formed small "sql_stmt_list" 0 st
      fuel refl (omega arith) (slice_from-zero input) (omega arith)
