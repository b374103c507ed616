-- ===== src/Examples/Prompt.antt =====
-- The prompt and a call of `endb_parse_sql_cst` over the stand-ins for the libraries.
use endb.Prelude.{List, [], ◌∷◌}
use endb.Prelude.Text.{codes}
use endb.Cst.Report.Draw.{Rendered, Renderer, FromJson}
use endb.Repl.{Input, line}
use endb.Examples.Witnesses.{query}
use endb.Ffi.ParseSql.Replies.{Replies}
use endb.Examples.Meanings.{no_table}

-- a drawing that is the text of the source
abbrev toy_renderer : Renderer
toy_renderer = record {
  write = λ calls filename source. Rendered.ok source;
  from_json = λ json. FromJson.invalid (codes "no JSON");
}

-- a query, and a text that is none
abbrev inputs : List Input
inputs = line query ∷ line no_table ∷ []
