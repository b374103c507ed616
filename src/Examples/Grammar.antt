-- ===== src/Examples/Grammar.antt =====
-- The grammar language at concrete tokens.
use endb.Prelude.{ℕ, ◌≡◌, ◌⊎◌, refl, Bool, true, false, ◌&&◌, [], ◌∷◌, leb}
use endb.Macro.Result.{ok, failed}
use endb.Macro.Tokens.{
  Tokens, eof, ◌◃◌, bang, caret, asterisk, plus, slash, semi, lt, gt, minus, vis, lit, ident, paren,
}
use endb.Macro.Parse.{parse_grammar}
use endb.Macro.Parse.RoundTrip.{parse_grammar-print_grammar}
use endb.Macro.Parse.Rules.{parse_grammar_ends}
use endb.Macro.Print.{print_grammar, canonical_grammar}
use endb.Peg.Syntax.{
  PegParser, end, ◌▹◌, seq, ord, pattern, literal, non_terminal, neg, cut, star, Grammar, rule,
  hidden_rule,
}
use endb.Sql.Grammar.{sql_grammar}

abbrev is_ascii_uppercase : ℕ → Bool
is_ascii_uppercase c = leb b'A' c && leb c b'Z'

-- pub x <- NOT y* / !"a" (y / ^r"b")+; <y> <- y;
abbrev tokens : Tokens
tokens =
    vis
    ◃ ident "x"
    ◃ lt
    ◃ minus
    ◃ ident "NOT"
    ◃ ident "y"
    ◃ asterisk
    ◃ slash
    ◃ bang
    ◃ lit false "a"
    ◃ paren (ident "y" ◃ slash ◃ caret ◃ lit true "b" ◃ eof)
    ◃ plus
    ◃ semi
    ◃ lt
    ◃ ident "y"
    ◃ gt
    ◃ lt
    ◃ minus
    ◃ ident "y"
    ◃ semi
    ◃ eof

abbrev grammar : Grammar
grammar =
    rule "x" (
      ord (
        seq (literal "NOT" ▹ star (non_terminal "y") ▹ end)
        ▹ seq (
            neg (literal "a")
            ▹ PegParser.plus (ord (non_terminal "y" ▹ cut (pattern "b") ▹ end))
            ▹ end)
        ▹ end))
    ∷ hidden_rule "y" (non_terminal "y")
    ∷ []

tokens_parsed : parse_grammar is_ascii_uppercase tokens ≡ ok grammar
unfolding parse_grammar
tokens_parsed = refl

-- a suffix binds after the prefixes
star_last :
    parse_grammar is_ascii_uppercase (ident "x" ◃ lt ◃ minus ◃ bang ◃ ident "y" ◃ asterisk ◃ eof)
    ≡ ok (rule "x" (star (neg (non_terminal "y"))) ∷ [])
unfolding parse_grammar
star_last = refl

parse_grammar-print_grammar_example :
    parse_grammar is_ascii_uppercase (print_grammar sql_grammar) ≡ ok sql_grammar
unfolding canonical_grammar
parse_grammar-print_grammar_example =
    parse_grammar-print_grammar is_ascii_uppercase sql_grammar refl

parse_grammar_ends_example :
    (parse_grammar is_ascii_uppercase tokens ≡ failed)
    ⊎ ((g : Grammar) × (parse_grammar is_ascii_uppercase tokens ≡ ok g)
        × (parse_grammar is_ascii_uppercase (print_grammar g) ≡ ok g))
parse_grammar_ends_example = parse_grammar_ends is_ascii_uppercase tokens
