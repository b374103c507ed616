-- ===== src/Macro/Parse.antt =====
-- lib/endb_proc_macro/src/lib.rs: `Parse for PegParser`, `parse_ord`, `Parse for Rule` and `Parse for
-- Grammar`. The calls nest as deeply as the tokens, and each spends one unit of fuel.
pub mod Total
pub mod Steps
pub mod RoundTrip
pub mod Rules
use endb.Prelude.{
  ℕ, zero, suc, ◌+◌, ◌*◌, String, Bool, true, false, ◌||◌, ◌&&◌, List, [], ◌∷◌, if◌then◌else◌, ◌==◌,
}
use endb.Prelude.Text.{Str, codes}
use endb.Macro.Result.{Result, ok, failed, out_of_fuel, ◌>>=◌}
use endb.Macro.Tokens.{
  Token, Tokens, eof, ◌◃◌, bang, amp, caret, asterisk, plus, question, slash, semi, lt, gt, minus,
  vis, lit, ident, paren, size,
}
use endb.Peg.Syntax.{
  PegParser, PegParsers, end, ◌▹◌, seq, ord, pattern, literal, non_terminal, neg, look, cut, star,
  opt, Rule, Grammar,
}

-- the condition of the `while`, the other way around
unfoldable pub stops : Tokens → Bool
stops eof = true
stops (semi ◃ ts) = true
stops (slash ◃ ts) = true
stops _ = false

-- the `loop` that collects prefixes
unfoldable pub parse_prefixes : Tokens → List (PegParser → PegParser) × Tokens
parse_prefixes (bang ◃ ts) = let (ps, rest) = parse_prefixes ts in (neg ∷ ps, rest)
parse_prefixes (amp ◃ ts) = let (ps, rest) = parse_prefixes ts in (look ∷ ps, rest)
parse_prefixes (caret ◃ ts) = let (ps, rest) = parse_prefixes ts in (cut ∷ ps, rest)
parse_prefixes ts = ([], ts)

-- `prefixes.iter().rev().fold(..)`
unfoldable pub add_prefixes : List (PegParser → PegParser) → PegParser → PegParser
add_prefixes [] p = p
add_prefixes (prefix ∷ ps) p = prefix (add_prefixes ps p)

unfoldable pub parse_suffix : PegParser → Tokens → PegParser × Tokens
parse_suffix p (asterisk ◃ ts) = (star p, ts)
parse_suffix p (plus ◃ ts) = (PegParser.plus p, ts)
parse_suffix p (question ◃ ts) = (opt p, ts)
parse_suffix p ts = (p, ts)

-- `if seq.len() == 1 { Ok(seq[0].clone()) } else { Ok(PegParser::Seq(seq)) }`
unfoldable pub make_seq : PegParsers → PegParser
make_seq (p ▹ end) = p
make_seq ps = seq ps

-- the same of `ord`
unfoldable pub make_ord : PegParsers → PegParser
make_ord (p ▹ end) = p
make_ord ps = ord ps

-- what a group leaves unread is an error
abbrev pub whole : PegParser → Tokens → Tokens → Result (PegParser × Tokens)
whole p eof rest = ok (p, rest)
whole p (_ ◃ _) rest = failed

-- `char::is_uppercase` is a parameter
module _ (is_uppercase : ℕ → Bool) where
  -- `chars().all(|c| c.is_uppercase() || c == '_')`
  unfoldable pub is_keyword : Str → Bool
  is_keyword [] = true
  is_keyword (c ∷ s) = (is_uppercase c || c == b'_') && is_keyword s

  unfoldable mutual
    unfolding is_keyword stops parse_prefixes add_prefixes parse_suffix make_seq make_ord

    -- a parser with no prefix and no suffix
    pub parse_atom : ℕ → Tokens → Result (PegParser × Tokens)
    parse_atom zero ts = out_of_fuel
    parse_atom (suc f) (lit raw text ◃ ts) = ok (if raw then pattern text else literal text, ts)
    parse_atom (suc f) (ident id ◃ ts) =
        ok (if is_keyword (codes id) then literal id else non_terminal id, ts)
    parse_atom (suc f) (paren content ◃ ts) = do (p, rest) ← parse_ord f content; whole p rest ts
    parse_atom (suc f) ts = failed

    -- the `while`
    pub parse_items : ℕ → Tokens → Result (PegParsers × Tokens)
    parse_items zero ts = out_of_fuel
    parse_items (suc f) ts =
        let more : Result (PegParsers × Tokens) = (do
          let (prefixes, ts₁) = parse_prefixes ts
          (atom, ts₂) ← parse_atom f ts₁
          let (p, ts₃) = parse_suffix (add_prefixes prefixes atom) ts₂
          (ps, rest) ← parse_items f ts₃
          ok (p ▹ ps, rest)) in
        if stops ts then ok (end, ts) else more

    -- `Punctuated::<PegParser, Token![/]>::parse_separated_nonempty`
    pub parse_alternatives : ℕ → Tokens → Result (PegParsers × Tokens)
    parse_alternatives zero ts = out_of_fuel
    parse_alternatives (suc f) ts = do
      (ps, rest) ← parse_items f ts
      parse_more f (make_seq ps) rest

    pub parse_more : ℕ → PegParser → Tokens → Result (PegParsers × Tokens)
    parse_more zero p ts = out_of_fuel
    parse_more (suc f) p (slash ◃ ts) = do (ps, rest) ← parse_alternatives f ts; ok (p ▹ ps, rest)
    parse_more (suc f) p ts = ok (p ▹ end, ts)

    pub parse_ord : ℕ → Tokens → Result (PegParser × Tokens)
    parse_ord zero ts = out_of_fuel
    parse_ord (suc f) ts = do (ps, rest) ← parse_alternatives f ts; ok (make_ord ps, rest)

  -- `input.parse::<Visibility>()`, which takes nothing where there is none
  unfoldable pub skip_vis : Tokens → Tokens
  skip_vis (vis ◃ ts) = ts
  skip_vis ts = ts

  -- `input.parse::<Token![<]>().is_ok()`
  unfoldable pub take_lt : Tokens → Bool × Tokens
  take_lt (lt ◃ ts) = (true, ts)
  take_lt ts = (false, ts)

  unfoldable pub expect_ident : Tokens → Result (String × Tokens)
  expect_ident (ident id ◃ ts) = ok (id, ts)
  expect_ident ts = failed

  -- `if hide { input.parse::<Token![>]>()?; }`
  unfoldable pub expect_gt : Bool → Tokens → Result Tokens
  expect_gt false ts = ok ts
  expect_gt true (gt ◃ ts) = ok ts
  expect_gt true ts = failed

  -- `<` and `-`
  unfoldable pub expect_arrow : Tokens → Result Tokens
  expect_arrow (lt ◃ minus ◃ ts) = ok ts
  expect_arrow ts = failed

  unfoldable pub parse_rule : ℕ → Tokens → Result (Rule × Tokens)
  unfolding parse_ord skip_vis take_lt expect_ident expect_gt expect_arrow
  parse_rule f ts = do
    let (hide, ts₁) = take_lt (skip_vis ts)
    (id, ts₂) ← expect_ident ts₁
    ts₃ ← expect_gt hide ts₂
    ts₄ ← expect_arrow ts₃
    (body, rest) ← parse_ord f ts₄
    ok (record { id = id; body = body; hide = hide }, rest)

  -- `Punctuated::<Rule, Token![;]>::parse_terminated`
  unfoldable mutual
    unfolding parse_rule

    pub parse_rules : ℕ → Tokens → Result Grammar
    parse_rules zero ts = out_of_fuel
    parse_rules (suc f) eof = ok []
    parse_rules (suc f) (t ◃ ts) = do (r, rest) ← parse_rule f (t ◃ ts); parse_more_rules f r rest

    pub parse_more_rules : ℕ → Rule → Tokens → Result Grammar
    parse_more_rules zero r ts = out_of_fuel
    parse_more_rules (suc f) r eof = ok (r ∷ [])
    parse_more_rules (suc f) r (semi ◃ ts) = do g ← parse_rules f ts; ok (r ∷ g)
    parse_more_rules (suc f) r ts = failed

  -- `parse_macro_input!(input as Grammar)`
  unfoldable pub parse_grammar : Tokens → Result Grammar
  unfolding parse_rules
  parse_grammar ts = parse_rules (4 * size ts + 5) ts
