-- ===== src/Peg/Syntax.antt =====
-- lib/endb_proc_macro/src/lib.rs: the parsers of the grammar language, its rules and grammars.
use text.Mathlib.Text.{◌==◌}
use endb.Prelude.{String, Bool, true, false, List, [], ◌∷◌, Option, none, some, if◌then◌else◌}

infixr 67 ◌▹◌
mutual
  pub data PegParser : Type 0 where
    seq : PegParsers → PegParser
    ord : PegParsers → PegParser
    pattern : String → PegParser
    literal : String → PegParser
    non_terminal : String → PegParser
    neg : PegParser → PegParser
    look : PegParser → PegParser
    cut : PegParser → PegParser
    star : PegParser → PegParser
    plus : PegParser → PegParser
    opt : PegParser → PegParser

  -- a `Vec<PegParser>`
  pub data PegParsers : Type 0 where
    end : PegParsers
    ◌▹◌ : PegParser → PegParsers → PegParsers

-- The visibility of a rule is the Rust compiler's and is left out.
pub record Rule : Type 0 where
  pub id : String
  pub body : PegParser
  pub hide : Bool

abbrev pub Grammar : Type 0
Grammar = List Rule

-- The function that a rule's name denotes in the generated code.
unfoldable pub find_rule : String → Grammar → Option Rule
find_rule id [] = none
find_rule id (r ∷ g) = if r.id == id then some r else find_rule id g

-- `id <- body;` and `<id> <- body;`
abbrev pub rule : String → PegParser → Rule
rule id body = record { id = id; body = body; hide = false }

abbrev pub hidden_rule : String → PegParser → Rule
hidden_rule id body = record { id = id; body = body; hide = true }
