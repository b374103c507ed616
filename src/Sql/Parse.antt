-- ===== src/Sql/Parse.antt =====
-- lib/endb_cst/src/sql.rs, the function `sql_stmt_list` that the macro generates, and how
-- lib/endb_lib/src/lib.rs calls it.
use endb.Prelude.{ℕ, ◌+◌, ◌<◌, ◌≤◌, Bool, true, [], ◌≡◌, refl, ◌⊎◌, arith}
use endb.Prelude.Text.{Str, byte_len}
use endb.Prelude.Slices.{At-zero}
use endb.Cst.Event.{ParseState, ParseResult}
use endb.Peg.Syntax.{non_terminal, find_rule}
use endb.Peg.Outcome.{Outcome, done, fault, overflow}
use endb.Peg.Leaf.{Crates, u32_mod}
use endb.Peg.Machine.{run}
use endb.Peg.Progress.{RegexLaws, Advances, allowance, rule_returns}
use endb.Sql.Grammar.{sql_grammar}
use endb.Sql.Ranks.{sql_analysis, sql_well_formed, rank_of}

unfoldable pub sql_stmt_list : Crates → ℕ → Str → ℕ → ParseState → Outcome
sql_stmt_list lib fuel input pos st =
    run lib sql_grammar input fuel (non_terminal "sql_stmt_list") pos st

-- `ParseState { track_errors, ..ParseState::default() }`
abbrev pub default_state : Bool → ParseState
default_state track_errors = record { events = []; errors = []; track_errors = track_errors }

-- the fuel that is enough for an input
abbrev pub sql_fuel : Str → ℕ
sql_fuel input = allowance sql_analysis input 0 sql_analysis.top + 2

-- On every input shorter than 2^32 bytes, with regular expressions that keep the stated laws and the
-- stated fuel, the SQL parser returns: in success, having consumed input and ending on a character
-- boundary, or in failure, or because the number of events outgrew a `u32`. It never loops, and no
-- slice of the input and no index into the events panics.
pub sql_stmt_list_returns :
    (lib : Crates) (input : Str) (st : ParseState) (fuel : ℕ)
    → RegexLaws lib sql_analysis
    → byte_len input < u32_mod
    → sql_fuel input ≤ fuel
    → ((r : ParseResult) × (st' : ParseState) × (sql_stmt_list lib fuel input 0 st ≡ done r st')
        × Advances input true 0 r)
      ⊎ (sql_stmt_list lib fuel input 0 st ≡ fault overflow)
unfolding sql_stmt_list rank_of find_rule
sql_stmt_list_returns lib input st fuel laws small h =
    rule_returns lib sql_grammar sql_analysis input laws sql_well_formed small "sql_stmt_list" 0 st
      fuel refl (omega arith) (At-zero input) (omega arith)
