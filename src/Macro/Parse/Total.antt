-- ===== src/Macro/Parse/Total.antt =====
-- lib/endb_proc_macro/src/lib.rs: when `peg!` has read its tokens, and what it makes of them.
use endb.Prelude.{
  ℕ, zero, suc, ◌+◌, ◌*◌, ◌<◌, ◌≤◌, Bool, true, false, not, ◌&&◌, ◌≡◌, refl, arith, Bool-cases, inl,
  inr,
}
use endb.Prelude.Text.{codes}
use endb.Macro.Result.{Reads, reads, rejects, Reads-bind, Reads-map}
use endb.Macro.Tokens.{
  Tokens, eof, ◌◃◌, bang, amp, caret, asterisk, plus, question, slash, lit, ident, paren, size,
}
use endb.Macro.Parse.{
  stops, parse_prefixes, add_prefixes, parse_suffix, make_seq, make_ord, whole, is_keyword,
  parse_atom, parse_items, parse_alternatives, parse_more, parse_ord,
}
use endb.Macro.Print.{is_end, canonical, all_canonical}
use endb.Peg.Syntax.{PegParser, PegParsers, end, ◌▹◌}

size-parse_suffix : (p : PegParser) (ts : Tokens) → size (parse_suffix p ts).1 ≤ size ts
unfolding parse_suffix
size-parse_suffix p (asterisk ◃ ts) = omega arith
size-parse_suffix p (plus ◃ ts) = omega arith
size-parse_suffix p (question ◃ ts) = omega arith
size-parse_suffix p eof = omega arith
size-parse_suffix p (_ ◃ ts) = omega arith

size-parse_prefixes : (ts : Tokens) → size (parse_prefixes ts).1 ≤ size ts
unfolding parse_prefixes
size-parse_prefixes (bang ◃ ts) = omega (arith, size-parse_prefixes ts)
size-parse_prefixes (amp ◃ ts) = omega (arith, size-parse_prefixes ts)
size-parse_prefixes (caret ◃ ts) = omega (arith, size-parse_prefixes ts)
size-parse_prefixes eof = omega arith
size-parse_prefixes (_ ◃ ts) = omega arith

module _ (is_uppercase : ℕ → Bool) where
  abbrev Good : PegParser → Type 0
  Good p = canonical is_uppercase p ≡ true

  abbrev AllGood : PegParsers → Type 0
  AllGood ps = all_canonical is_uppercase ps ≡ true

  canonical-parse_suffix : (p : PegParser) (ts : Tokens) → Good p → Good (parse_suffix p ts).0
  unfolding parse_suffix canonical
  canonical-parse_suffix p (asterisk ◃ ts) c = c
  canonical-parse_suffix p (plus ◃ ts) c = c
  canonical-parse_suffix p (question ◃ ts) c = c
  canonical-parse_suffix p eof c = c
  canonical-parse_suffix p (_ ◃ ts) c = c

  canonical-add_prefixes :
      (ts : Tokens) (p : PegParser) → Good p → Good (add_prefixes (parse_prefixes ts).0 p)
  unfolding parse_prefixes add_prefixes canonical
  canonical-add_prefixes (bang ◃ ts) p c = canonical-add_prefixes ts p c
  canonical-add_prefixes (amp ◃ ts) p c = canonical-add_prefixes ts p c
  canonical-add_prefixes (caret ◃ ts) p c = canonical-add_prefixes ts p c
  canonical-add_prefixes eof p c = c
  canonical-add_prefixes (_ ◃ ts) p c = c

  canonical-make_seq : (ps : PegParsers) → AllGood ps → Good (make_seq ps)
  unfolding make_seq canonical
  canonical-make_seq end c = refl
  canonical-make_seq (p ▹ end) c = ground (arith, c)
  canonical-make_seq (p ▹ q ▹ ps) c = c

  canonical-make_ord : (ps : PegParsers) → not (is_end ps) ≡ true → AllGood ps → Good (make_ord ps)
  unfolding make_ord canonical
  canonical-make_ord end n c = ground (arith, n)
  canonical-make_ord (p ▹ end) n c = ground (arith, c)
  canonical-make_ord (p ▹ q ▹ ps) n c = c

  pub both : {a b : Bool} → a ≡ true → b ≡ true → (a && b) ≡ true
  both {a} {b} e e' = ground (arith, e, e')

  whole-Reads :
      (p : PegParser) (rest ts : Tokens) (n : ℕ)
      → Good p
      → size ts < n
      → Reads (λ (p', rest'). Good p' × (size rest' < n)) (whole p rest ts)
  whole-Reads p eof ts n c h = reads (c, h)
  whole-Reads p (_ ◃ _) ts n c h = rejects

  mutual
    unfolding parse_atom parse_items canonical

    parse_atom-Reads :
        (f : ℕ) (ts : Tokens)
        → 4 * size ts < f
        → Reads (λ (p, rest). Good p × (size rest < size ts)) (parse_atom is_uppercase f ts)
    parse_atom-Reads zero ts h = absurd (omega arith)
    parse_atom-Reads (suc f) (lit true text ◃ ts) h = reads (refl, omega arith)
    parse_atom-Reads (suc f) (lit false text ◃ ts) h = reads (refl, omega arith)
    parse_atom-Reads (suc f) (ident id ◃ ts) h =
        elim (Bool-cases (is_keyword is_uppercase (codes id))) [
          | inl e ↦ simp e (reads (refl, omega arith))
          | inr e ↦ simp e (reads (simp e refl, omega arith))
        ]
    parse_atom-Reads (suc f) (paren content ◃ ts) h =
        Reads-bind _ (parse_ord-Reads f content (omega arith))
          λ (p, rest) (c, _). whole-Reads p rest ts (size (paren content ◃ ts)) c (omega arith)
    parse_atom-Reads (suc f) eof h = rejects
    parse_atom-Reads (suc f) (_ ◃ ts) h = rejects

    parse_items-Reads :
        (f : ℕ) (ts : Tokens)
        → 4 * size ts + 1 < f
        → Reads (λ (ps, rest). AllGood ps × (size rest ≤ size ts)) (parse_items is_uppercase f ts)
    parse_items-Reads zero ts h = absurd (omega arith)
    parse_items-Reads (suc f) ts h = elim (Bool-cases (stops ts)) [
      | inl e ↦ simp e (reads (refl, omega arith))
      | inr e ↦ simp e (
          Reads-bind _
            (parse_atom-Reads f (parse_prefixes ts).1 (omega (arith, size-parse_prefixes ts)))
            λ (atom, ts₂) (c, lt₂).
              let item = add_prefixes (parse_prefixes ts).0 atom in
              let shrinks = size-parse_suffix item ts₂ in
              Reads-bind _
                (parse_items-Reads f (parse_suffix item ts₂).1
                  (omega (arith, size-parse_prefixes ts)))
                λ (ps, rest) (c', le). reads (
                  both (canonical-parse_suffix item ts₂ (canonical-add_prefixes ts atom c)) c',
                  omega (arith, size-parse_prefixes ts),
                ))
    ]

    parse_alternatives-Reads :
        (f : ℕ) (ts : Tokens)
        → 4 * size ts + 2 < f
        → Reads
            (λ (ps, rest). AllGood ps × (not (is_end ps) ≡ true) × (size rest ≤ size ts))
            (parse_alternatives is_uppercase f ts)
    parse_alternatives-Reads zero ts h = absurd (omega arith)
    parse_alternatives-Reads (suc f) ts h =
        Reads-bind _ (parse_items-Reads f ts (omega arith)) λ (ps, rest) (c, le).
          Reads-map (λ (ps', left) (c', n, le'). (c', n, omega arith))
            (parse_more-Reads f (make_seq ps) rest (canonical-make_seq ps c) (omega arith))

    parse_more-Reads :
        (f : ℕ) (p : PegParser) (ts : Tokens)
        → Good p
        → 4 * size ts + 1 < f
        → Reads
            (λ (ps, rest). AllGood ps × (not (is_end ps) ≡ true) × (size rest ≤ size ts))
            (parse_more is_uppercase f p ts)
    parse_more-Reads zero p ts c h = absurd (omega arith)
    parse_more-Reads (suc f) p (slash ◃ ts) c h =
        Reads-bind _ (parse_alternatives-Reads f ts (omega arith))
          λ (ps, rest) (c', _, le). reads (both c c', refl, omega arith)
    parse_more-Reads (suc f) p eof c h = reads (both c refl, refl, omega arith)
    parse_more-Reads (suc f) p (_ ◃ ts) c h = reads (both c refl, refl, omega arith)

    pub parse_ord-Reads :
        (f : ℕ) (ts : Tokens)
        → 4 * size ts + 3 < f
        → Reads (λ (p, rest). Good p × (size rest ≤ size ts)) (parse_ord is_uppercase f ts)
    parse_ord-Reads zero ts h = absurd (omega arith)
    parse_ord-Reads (suc f) ts h =
        Reads-bind _ (parse_alternatives-Reads f ts (omega arith))
          λ (ps, rest) (c, n, le). reads (canonical-make_ord ps n c, le)
