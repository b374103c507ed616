-- ===== src/Macro/Tokens.antt =====
-- lib/endb_proc_macro/src/lib.rs: the tokens of the grammar language.
use endb.Prelude.{ℕ, suc, ◌+◌, String, Bool}

infixr 67 ◌◃◌
mutual
  -- `vis` is the tokens of a visibility, `lit raw text` a string literal, `raw` being whether its
  -- source text is known to start with an `r`, `ident` an identifier that is no keyword, `paren` a
  -- group in parentheses, and `other` any other token
  pub data Token : Type 0 where
    bang amp caret asterisk plus question slash semi lt gt minus vis other : Token
    lit : Bool → String → Token
    ident : String → Token
    paren : Tokens → Token

  pub data Tokens : Type 0 where
    eof : Tokens
    ◌◃◌ : Token → Tokens → Tokens

abbrev mutual
  pub size : Tokens → ℕ
  size eof = 0
  size (t ◃ ts) = suc (token_size t + size ts)

  pub token_size : Token → ℕ
  token_size (paren ts) = suc (size ts)
  token_size _ = 0
