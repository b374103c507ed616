-- ===== src/Macro/Parse/RoundTrip.antt =====
-- lib/endb_proc_macro/src/lib.rs: reading a printed grammar.
use endb.Prelude.{
  ℕ, zero, suc, ◌+◌, ◌*◌, ◌<◌, String, Bool, true, false, not, [], ◌∷◌, ◌≡◌, refl, ◌∙◌, arith,
  and-true,
}
use endb.Macro.Result.{ok, ◌>>=◌}
use endb.Macro.Tokens.{
  Tokens, eof, ◌◃◌, bang, amp, caret, asterisk, plus, question, semi, lt, minus, size,
}
use endb.Macro.Parse.{
  stops, add_prefixes, parse_suffix, parse_atom, parse_items, parse_more, parse_ord, parse_rule,
  parse_rules, parse_more_rules, parse_grammar,
}
use endb.Macro.Print.{
  print, print_items, print_further, print_name, print_grammar, is_single, canonical, all_canonical,
  canonical_grammar,
}
use endb.Peg.Syntax.{
  PegParser, PegParsers, end, ◌▹◌, seq, ord, pattern, literal, non_terminal, neg, look, cut, star,
  opt, Rule, Grammar,
}
use endb.Macro.Parse.Steps.{
  stops-print, parse_prefixes-print, parse_prefixes-bang, parse_prefixes-amp, parse_prefixes-caret,
  parse_suffix-print_items, parse_suffix-print_further, stops-print_further, size-print,
  parse_items-step, parse_items-stops, parse_items-one, parse_more-eof, parse_more-slash,
  parse_alternatives-step, parse_ord-one, parse_atom-seq, parse_atom-ord, spend, word,
  literal_token, prefixed, suffixed,
}

module _ (is_uppercase : ℕ → Bool) where
  mutual
    unfolding print canonical add_prefixes parse_suffix stops

    parse_atom-print :
        (p : PegParser) (rest : Tokens)
        → canonical is_uppercase p ≡ true
        → (f : ℕ) → 4 * size (print p rest) < f
        → parse_atom is_uppercase f (print p rest) ≡ ok (p, rest)
    parse_atom-print (pattern p) rest c =
        spend _ (omega arith) λ f h. literal_token is_uppercase _ true p rest
    parse_atom-print (literal p) rest c =
        spend _ (omega arith) λ f h. literal_token is_uppercase _ false p rest
    parse_atom-print (non_terminal id) rest c =
        spend _ (omega arith) λ f h. word is_uppercase _ id rest c
    parse_atom-print (neg p) rest c = spend _ (omega arith) λ f h.
        prefixed is_uppercase f p neg (bang ◃ print p eof) rest refl (parse_prefixes-bang p eof)
          (parse_atom-print p eof c (suc f) (omega arith))
    parse_atom-print (look p) rest c = spend _ (omega arith) λ f h.
        prefixed is_uppercase f p look (amp ◃ print p eof) rest refl (parse_prefixes-amp p eof)
          (parse_atom-print p eof c (suc f) (omega arith))
    parse_atom-print (cut p) rest c = spend _ (omega arith) λ f h.
        prefixed is_uppercase f p cut (caret ◃ print p eof) rest refl (parse_prefixes-caret p eof)
          (parse_atom-print p eof c (suc f) (omega arith))
    parse_atom-print (star p) rest c = spend _ (omega arith) λ f h.
        suffixed is_uppercase f p (star p) (asterisk ◃ eof) rest refl
          (parse_atom-print p (asterisk ◃ eof) c (suc f) (omega arith))
    parse_atom-print (PegParser.plus p) rest c = spend _ (omega arith) λ f h.
        suffixed is_uppercase f p (PegParser.plus p) (plus ◃ eof) rest refl
          (parse_atom-print p (plus ◃ eof) c (suc f) (omega arith))
    parse_atom-print (opt p) rest c = spend _ (omega arith) λ f h.
        suffixed is_uppercase f p (opt p) (question ◃ eof) rest refl
          (parse_atom-print p (question ◃ eof) c (suc f) (omega arith))
    parse_atom-print (seq ps) rest c = spend _ (omega arith) λ f h.
        let (single, all) = and-true (not (is_single ps)) _ c in
        parse_atom-seq is_uppercase (suc f) ps (print_items ps eof) rest single
          (parse_items-print_items ps all (suc (suc f)) (omega arith))
    parse_atom-print (ord end) rest c = ground (arith, c)
    parse_atom-print (ord (p ▹ ps)) rest c = spend _ (omega arith) λ f h.
        let (single, more) = and-true (not (is_single (p ▹ ps))) _ c in
        let (nonempty, all) = and-true _ _ more in
        let (c₁, c₂) = and-true (canonical is_uppercase p) _ all in
        let tail = print_further ps eof in
        parse_atom-ord is_uppercase (suc (suc (suc f))) (p ▹ ps) (print p tail) rest single nonempty
          (parse_alternatives-step is_uppercase (suc (suc f)) p (print p tail) tail
            (parse_items-one is_uppercase f (print p tail) (stops-print p tail)
              (parse_prefixes-print p tail) (parse_atom-print p tail c₁ (suc f) (omega arith))
              (parse_suffix-print_further p ps) (stops-print_further ps))
            (parse_more-print ps p c₂ (suc (suc f)) (omega (arith, size-print p tail))))

    parse_items-print_items :
        (ps : PegParsers)
        → all_canonical is_uppercase ps ≡ true
        → (f : ℕ) → 4 * size (print_items ps eof) + 1 < f
        → parse_items is_uppercase f (print_items ps eof) ≡ ok (ps, eof)
    parse_items-print_items end c zero h = absurd (omega arith)
    parse_items-print_items end c (suc f) h = parse_items-stops is_uppercase f eof refl
    parse_items-print_items (p ▹ ps) c zero h = absurd (omega arith)
    parse_items-print_items (p ▹ ps) c (suc f) h =
        let (c₁, c₂) = and-true (canonical is_uppercase p) _ c in
        let rest = print_items ps eof in
        let tail = parse_items-print_items ps c₂ f (omega (arith, size-print p rest)) in
        simp
          (
            parse_items-step is_uppercase f (print p rest) (stops-print p rest)
                (parse_prefixes-print p rest) (parse_atom-print p rest c₁ f (omega arith))
                (parse_suffix-print_items p ps),
            tail,
          )
          refl

    parse_more-print :
        (ps : PegParsers) (q : PegParser)
        → all_canonical is_uppercase ps ≡ true
        → (f : ℕ) → 4 * size (print_further ps eof) + 4 < f
        → parse_more is_uppercase f q (print_further ps eof) ≡ ok (q ▹ ps, eof)
    parse_more-print end q c = spend _ (omega arith) λ f h. parse_more-eof is_uppercase _ q
    parse_more-print (p ▹ ps) q c = spend _ (omega arith) λ f h.
        let (c₁, c₂) = and-true (canonical is_uppercase p) _ c in
        let tail = print_further ps eof in
        parse_more-slash is_uppercase _ q (print p tail) (
          parse_alternatives-step is_uppercase (suc (suc (suc f))) p (print p tail) tail
            (parse_items-one is_uppercase (suc f) (print p tail) (stops-print p tail)
              (parse_prefixes-print p tail) (parse_atom-print p tail c₁ (suc (suc f)) (omega arith))
              (parse_suffix-print_further p ps) (stops-print_further ps))
            (parse_more-print ps p c₂ (suc (suc (suc f))) (omega (arith, size-print p tail))))

  -- the body of a rule, up to what ends it
  parse_ord-print :
      (p : PegParser) (rest : Tokens)
      → canonical is_uppercase p ≡ true
      → (f : ℕ) → 4 * size (print p (semi ◃ rest)) + 3 < f
      → parse_ord is_uppercase f (print p (semi ◃ rest)) ≡ ok (p, semi ◃ rest)
  parse_ord-print p rest c = spend _ (omega (arith, size-print p (semi ◃ rest))) λ f h.
      parse_ord-one is_uppercase (suc f) p (print p (semi ◃ rest)) rest (
        parse_items-one is_uppercase (suc f) (print p (semi ◃ rest)) (stops-print p _)
          (parse_prefixes-print p _)
          (parse_atom-print p (semi ◃ rest) c (suc (suc f)) (omega arith))
          (unfold parse_suffix add_prefixes in refl) (unfold stops in refl))

  named :
      (f : ℕ) (hide : Bool) (id : String) (body : PegParser) (ts rest : Tokens)
      → parse_ord is_uppercase f ts ≡ ok (body, rest)
      → parse_rule is_uppercase f (print_name hide id (lt ◃ minus ◃ ts))
        ≡ ok (record { id = id; body = body; hide = hide }, rest)
  unfolding parse_rule print_name
  named f true id body ts rest h = simp h refl
  named f false id body ts rest h = simp h refl

  size-print_name :
      (hide : Bool) (id : String) (ts : Tokens) → size ts < size (print_name hide id ts)
  unfolding print_name
  size-print_name true id ts = omega arith
  size-print_name false id ts = omega arith

  name_first :
      (f : ℕ) (hide : Bool) (id : String) (ts : Tokens)
      → parse_rules is_uppercase (suc f) (print_name hide id ts) ≡ (do
        (r, rest) ← parse_rule is_uppercase f (print_name hide id ts)
        parse_more_rules is_uppercase f r rest)
  unfolding parse_rules print_name
  name_first f true id ts = refl
  name_first f false id ts = refl

  more_rules :
      (f : ℕ) (r : Rule) (ts : Tokens) {g : Grammar}
      → parse_rules is_uppercase f ts ≡ ok g
      → parse_more_rules is_uppercase (suc f) r (semi ◃ ts) ≡ ok (r ∷ g)
  unfolding parse_more_rules
  more_rules f r ts h = simp h refl

  parse_rules-print_grammar :
      (g : Grammar)
      → canonical_grammar is_uppercase g ≡ true
      → (f : ℕ) → 4 * size (print_grammar g) + 4 < f
      → parse_rules is_uppercase f (print_grammar g) ≡ ok g
  unfolding print_grammar canonical_grammar
  parse_rules-print_grammar [] c = spend _ (omega arith) λ f h. unfold parse_rules in refl
  parse_rules-print_grammar (r ∷ g) c = spend _ (omega arith) λ f h.
      let (c₁, c₂) = and-true (canonical is_uppercase r.body) _ c in
      let ts = print_grammar g in
      let body = print r.body (semi ◃ ts) in
      let name = size-print_name r.hide r.id (lt ◃ minus ◃ body) in
      let rule =
        named (suc (suc (suc (suc f)))) r.hide r.id r.body body (semi ◃ ts)
          (parse_ord-print r.body ts c₁ (suc (suc (suc (suc f)))) (omega (arith, name))) in
      let tail =
        parse_rules-print_grammar g c₂ (suc (suc (suc f)))
          (omega (arith, name, size-print r.body (semi ◃ ts))) in
      name_first (suc (suc (suc (suc f)))) r.hide r.id (lt ◃ minus ◃ body)
      ∙ simp rule (more_rules (suc (suc (suc f))) r ts tail)

  -- A grammar that `peg!` can read is read back from its printed tokens.
  pub parse_grammar-print_grammar :
      (g : Grammar)
      → canonical_grammar is_uppercase g ≡ true
      → parse_grammar is_uppercase (print_grammar g) ≡ ok g
  unfolding parse_grammar
  parse_grammar-print_grammar g c = parse_rules-print_grammar g c _ (omega arith)
