-- ===== src/Macro/Print.antt =====
-- Grammars written as tokens, every parser but a word in parentheses.
use endb.Prelude.{ℕ, String, Bool, true, false, not, ◌&&◌, [], ◌∷◌}
use endb.Prelude.Text.{codes}
use endb.Macro.Tokens.{
  Tokens, eof, ◌◃◌, bang, amp, caret, asterisk, plus, question, slash, semi, lt, gt, minus, lit,
  ident, paren,
}
use endb.Macro.Parse.{is_keyword}
use endb.Peg.Syntax.{
  PegParser, PegParsers, end, ◌▹◌, seq, ord, pattern, literal, non_terminal, neg, look, cut, star,
  opt, Rule, Grammar,
}

-- what is written before the tokens that follow
unfoldable mutual
  pub print : PegParser → Tokens → Tokens
  print (pattern p) rest = lit true p ◃ rest
  print (literal l) rest = lit false l ◃ rest
  print (non_terminal id) rest = ident id ◃ rest
  print (seq ps) rest = paren (print_items ps eof) ◃ rest
  print (ord ps) rest = paren (print_alternatives ps eof) ◃ rest
  print (neg p) rest = paren (bang ◃ print p eof) ◃ rest
  print (look p) rest = paren (amp ◃ print p eof) ◃ rest
  print (cut p) rest = paren (caret ◃ print p eof) ◃ rest
  print (star p) rest = paren (print p (asterisk ◃ eof)) ◃ rest
  print (PegParser.plus p) rest = paren (print p (plus ◃ eof)) ◃ rest
  print (opt p) rest = paren (print p (question ◃ eof)) ◃ rest

  pub print_items : PegParsers → Tokens → Tokens
  print_items end rest = rest
  print_items (p ▹ ps) rest = print p (print_items ps rest)

  pub print_alternatives : PegParsers → Tokens → Tokens
  print_alternatives end rest = rest
  print_alternatives (p ▹ ps) rest = print p (print_further ps rest)

  pub print_further : PegParsers → Tokens → Tokens
  print_further end rest = rest
  print_further (p ▹ ps) rest = slash ◃ print p (print_further ps rest)

unfoldable pub print_name : Bool → String → Tokens → Tokens
print_name false id rest = ident id ◃ rest
print_name true id rest = lt ◃ ident id ◃ gt ◃ rest

unfoldable pub print_rule : Rule → Tokens → Tokens
unfolding print print_name
print_rule r rest = print_name r.hide r.id (lt ◃ minus ◃ print r.body rest)

-- each rule with a semicolon
unfoldable pub print_grammar : Grammar → Tokens
unfolding print_rule
print_grammar [] = eof
print_grammar (r ∷ g) = print_rule r (semi ◃ print_grammar g)

-- whether a list has one element
abbrev pub is_single : PegParsers → Bool
is_single (p ▹ end) = true
is_single ps = false

abbrev pub is_end : PegParsers → Bool
is_end end = true
is_end ps = false

-- What `peg!` can read: no sequence and no choice of one parser, no empty choice, and no rule whose
-- name is a keyword.
module _ (is_uppercase : ℕ → Bool) where
  unfoldable mutual
    unfolding is_keyword

    pub canonical : PegParser → Bool
    canonical (pattern p) = true
    canonical (literal l) = true
    canonical (non_terminal id) = not (is_keyword is_uppercase (codes id))
    canonical (seq ps) = not (is_single ps) && all_canonical ps
    canonical (ord ps) = not (is_single ps) && (not (is_end ps) && all_canonical ps)
    canonical (neg p) = canonical p
    canonical (look p) = canonical p
    canonical (cut p) = canonical p
    canonical (star p) = canonical p
    canonical (PegParser.plus p) = canonical p
    canonical (opt p) = canonical p

    pub all_canonical : PegParsers → Bool
    all_canonical end = true
    all_canonical (p ▹ ps) = canonical p && all_canonical ps

  unfoldable pub canonical_grammar : Grammar → Bool
  unfolding canonical
  canonical_grammar [] = true
  canonical_grammar (r ∷ g) = canonical r.body && canonical_grammar g
