-- ===== src/Macro/Parse/Rules.antt =====
-- lib/endb_proc_macro/src/lib.rs, `peg!`: what becomes of its tokens.
use endb.Prelude.{
  ℕ, zero, suc, ◌+◌, ◌*◌, ◌<◌, ◌≤◌, Bool, true, false, ◌≡◌, refl, arith, ◌⊎◌, inl, inr,
}
use endb.Macro.Result.{Result, ok, failed, Reads, reads, rejects, Reads-bind}
use endb.Macro.Tokens.{Tokens, eof, ◌◃◌, semi, lt, gt, minus, vis, ident, size}
use endb.Macro.Parse.{
  parse_rule, parse_rules, parse_more_rules, parse_grammar, skip_vis, take_lt, expect_ident,
  expect_gt, expect_arrow,
}
use endb.Macro.Parse.Total.{both, parse_ord-Reads}
use endb.Macro.Parse.RoundTrip.{parse_grammar-print_grammar}
use endb.Macro.Print.{canonical, canonical_grammar, print_grammar}
use endb.Peg.Syntax.{Rule, Grammar}

module _ (is_uppercase : ℕ → Bool) where
  size-skip_vis : (ts : Tokens) → size (skip_vis is_uppercase ts) ≤ size ts
  unfolding skip_vis
  size-skip_vis (vis ◃ ts) = omega arith
  size-skip_vis eof = omega arith
  size-skip_vis (_ ◃ ts) = omega arith

  size-take_lt : (ts : Tokens) → size (take_lt is_uppercase ts).1 ≤ size ts
  unfolding take_lt
  size-take_lt (lt ◃ ts) = omega arith
  size-take_lt eof = omega arith
  size-take_lt (_ ◃ ts) = omega arith

  expect_ident-Reads :
      (ts : Tokens) → Reads (λ (id, rest). size rest < size ts) (expect_ident is_uppercase ts)
  unfolding expect_ident
  expect_ident-Reads (ident id ◃ ts) = reads (omega arith)
  expect_ident-Reads eof = rejects
  expect_ident-Reads (_ ◃ ts) = rejects

  expect_gt-Reads :
      (hide : Bool) (ts : Tokens)
      → Reads (λ rest. size rest ≤ size ts) (expect_gt is_uppercase hide ts)
  unfolding expect_gt
  expect_gt-Reads false ts = reads (omega arith)
  expect_gt-Reads true (gt ◃ ts) = reads (omega arith)
  expect_gt-Reads true eof = rejects
  expect_gt-Reads true (_ ◃ ts) = rejects

  expect_arrow-Reads :
      (ts : Tokens) → Reads (λ rest. size rest < size ts) (expect_arrow is_uppercase ts)
  unfolding expect_arrow
  expect_arrow-Reads (lt ◃ minus ◃ ts) = reads (omega arith)
  expect_arrow-Reads eof = rejects
  expect_arrow-Reads (lt ◃ eof) = rejects
  expect_arrow-Reads (lt ◃ _ ◃ ts) = rejects
  expect_arrow-Reads (_ ◃ ts) = rejects

  parse_rule-Reads :
      (f : ℕ) (ts : Tokens)
      → 4 * size ts + 3 < f
      → Reads
          (λ (r, rest). (canonical is_uppercase r.body ≡ true) × (size rest < size ts))
          (parse_rule is_uppercase f ts)
  unfolding parse_rule
  parse_rule-Reads f ts h =
      let opened = take_lt is_uppercase (skip_vis is_uppercase ts) in
      let shrinks = size-take_lt (skip_vis is_uppercase ts) in
      let visible = size-skip_vis ts in
      Reads-bind _ (expect_ident-Reads opened.1) λ (id, ts₂) l₂.
        Reads-bind _ (expect_gt-Reads opened.0 ts₂) λ ts₃ l₃.
          Reads-bind _ (expect_arrow-Reads ts₃) λ ts₄ l₄.
            Reads-bind _ (parse_ord-Reads is_uppercase f ts₄ (omega arith))
              λ (body, rest) (c, l). reads (c, omega arith)

  mutual
    unfolding parse_rules canonical_grammar

    parse_rules-Reads :
        (f : ℕ) (ts : Tokens)
        → 4 * size ts + 4 < f
        → Reads (λ g. canonical_grammar is_uppercase g ≡ true) (parse_rules is_uppercase f ts)
    parse_rules-Reads zero ts h = absurd (omega arith)
    parse_rules-Reads (suc f) eof h = reads refl
    parse_rules-Reads (suc f) (t ◃ ts) h =
        Reads-bind _ (parse_rule-Reads f (t ◃ ts) (omega arith))
          λ (r, rest) (c, l). parse_more_rules-Reads f r rest c (omega arith)

    parse_more_rules-Reads :
        (f : ℕ) (r : Rule) (ts : Tokens)
        → canonical is_uppercase r.body ≡ true
        → 4 * size ts + 4 < f
        → Reads
            (λ g. canonical_grammar is_uppercase g ≡ true)
            (parse_more_rules is_uppercase f r ts)
    parse_more_rules-Reads zero r ts c h = absurd (omega arith)
    parse_more_rules-Reads (suc f) r eof c h = reads (both is_uppercase c refl)
    parse_more_rules-Reads (suc f) r (semi ◃ ts) c h =
        Reads-bind _ (parse_rules-Reads f ts (omega arith)) λ g c'. reads (both is_uppercase c c')
    parse_more_rules-Reads (suc f) r (_ ◃ ts) c h = rejects

  reread :
      {o : Result Grammar}
      → Reads (λ g. canonical_grammar is_uppercase g ≡ true) o
      → (o ≡ failed)
        ⊎ ((g : Grammar) × (o ≡ ok g) × (parse_grammar is_uppercase (print_grammar g) ≡ ok g))
  reread (reads c) = inr (_, refl, parse_grammar-print_grammar is_uppercase _ c)
  reread rejects = inl refl

  -- On any tokens `peg!` ends, with a syntax error or with a grammar; a grammar that it has read,
  -- printed as tokens, is read as the same grammar.
  pub parse_grammar_ends :
      (ts : Tokens)
      → (parse_grammar is_uppercase ts ≡ failed)
        ⊎ ((g : Grammar) × (parse_grammar is_uppercase ts ≡ ok g)
            × (parse_grammar is_uppercase (print_grammar g) ≡ ok g))
  unfolding parse_grammar
  parse_grammar_ends ts = reread (parse_rules-Reads (4 * size ts + 5) ts (omega arith))
