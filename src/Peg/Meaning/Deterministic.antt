-- ===== src/Peg/Meaning/Deterministic.antt =====
-- lib/endb_proc_macro/src/lib.rs: a grammar gives one meaning to a text.
use endb.Prelude.{ℕ, Option, some, ◌≡◌, refl, sym, ap, ◌∙◌, subst}
use mathlib.Core.Option.{some-injective}
use endb.Prelude.Text.{Str, slice_from}
use endb.Cst.Event.{ParseErr, fail}
use endb.Peg.Syntax.{PegParser, Rule, Grammar}
use endb.Peg.Leaf.{Crates}
use endb.Peg.Meaning.{
  Answer, matched, failed, Parses, skip_space, pattern_reads, pattern_fails, literal_reads,
  literal_fails, seq_end, seq_next, seq_fails, ord_end, ord_first, ord_next, ord_cut, star_next,
  star_end, star_cut, neg_fails, neg_holds, cut_reads, cut_fails, rule_body, look_twice, plus_star,
  opt_empty,
}

abbrev left : Answer → Str → Str
left (matched t) d = t
left (failed e) d = d

matched-injective : {t u : Str} → matched t ≡ matched u → t ≡ u
matched-injective {t} h = ap (λ o. left o t) h

matched≢failed : {A : Type 0} {t : Str} {e : ParseErr} → matched t ≡ failed e → A
matched≢failed h = cc

fail≢error : {A : Type 0} → failed fail ≡ failed ParseErr.error → A
fail≢error h = cc

module _ (lib : Crates) (g : Grammar) where
  in_text :
      {p : PegParser} {t u : Str} {o : Answer} → t ≡ u → Parses lib g p u o → Parses lib g p t o
  in_text {p} {o = o} e d = subst (λ v. Parses lib g p v o) (sym e) d

  of_rule :
      {r r' : Rule} {s : Str} {o : Answer}
      → r ≡ r'
      → Parses lib g r'.body s o
      → Parses lib g r.body s o
  of_rule {s = s} {o = o} e d = subst (λ (r : Rule). Parses lib g r.body s o) (sym e) d

  same_end : {m : Option (ℕ × ℕ)} {a b a' b' : ℕ} → m ≡ some (a, b) → m ≡ some (a', b') → b ≡ b'
  same_end f f' = ap (λ p. p.1) (some-injective _ _ (sym f ∙ f'))

  same_rest :
      (s : Str) {t t' : Str} {b b' : ℕ}
      → b ≡ b'
      → slice_from s b ≡ some t
      → slice_from s b' ≡ some t'
      → t ≡ t'
  same_rest s e c c' = some-injective _ _ (sym c ∙ ap (slice_from s) e ∙ c')

  same_skip :
      {t t' u u' : Str}
      → t ≡ t'
      → skip_space lib t ≡ some u
      → skip_space lib t' ≡ some u'
      → matched u ≡ matched u'
  same_skip e k k' = ap matched (some-injective _ _ (sym k ∙ ap (skip_space lib) e ∙ k'))

  -- A parser has at most one answer from a text.
  pub Parses-unique :
      {p : PegParser} {s : Str} {o o' : Answer} → Parses lib g p s o → Parses lib g p s o' → o ≡ o'
  Parses-unique (pattern_reads f c k) (pattern_reads f' c' k') =
      same_skip (same_rest _ (same_end f f') c c') k k'
  Parses-unique (pattern_reads f c k) (pattern_fails n) = cc
  Parses-unique (pattern_fails n) (pattern_reads f c k) = cc
  Parses-unique (pattern_fails n) (pattern_fails n') = refl
  Parses-unique (literal_reads w k) (literal_reads w' k') =
      same_skip (some-injective _ _ (sym w ∙ w')) k k'
  Parses-unique (literal_reads w k) (literal_fails n) = cc
  Parses-unique (literal_fails n) (literal_reads w k) = cc
  Parses-unique (literal_fails n) (literal_fails n') = refl
  Parses-unique seq_end seq_end = refl
  Parses-unique (seq_next d k) (seq_next d' k') =
      Parses-unique k (in_text (matched-injective (Parses-unique d d')) k')
  Parses-unique (seq_next d k) (seq_fails d') = matched≢failed (Parses-unique d d')
  Parses-unique (seq_fails d) (seq_next d' k) = matched≢failed (sym (Parses-unique d d'))
  Parses-unique (seq_fails d) (seq_fails d') = Parses-unique d d'
  Parses-unique ord_end ord_end = refl
  Parses-unique (ord_first d) (ord_first d') = Parses-unique d d'
  Parses-unique (ord_first d) (ord_next d' k) = matched≢failed (Parses-unique d d')
  Parses-unique (ord_first d) (ord_cut d') = matched≢failed (Parses-unique d d')
  Parses-unique (ord_next d k) (ord_first d') = matched≢failed (sym (Parses-unique d d'))
  Parses-unique (ord_next d k) (ord_next d' k') = Parses-unique k k'
  Parses-unique (ord_next d k) (ord_cut d') = fail≢error (Parses-unique d d')
  Parses-unique (ord_cut d) (ord_first d') = matched≢failed (sym (Parses-unique d d'))
  Parses-unique (ord_cut d) (ord_next d' k) = fail≢error (sym (Parses-unique d d'))
  Parses-unique (ord_cut d) (ord_cut d') = refl
  Parses-unique (star_next d k) (star_next d' k') =
      Parses-unique k (in_text (matched-injective (Parses-unique d d')) k')
  Parses-unique (star_next d k) (star_end d') = matched≢failed (Parses-unique d d')
  Parses-unique (star_next d k) (star_cut d') = matched≢failed (Parses-unique d d')
  Parses-unique (star_end d) (star_next d' k) = matched≢failed (sym (Parses-unique d d'))
  Parses-unique (star_end d) (star_end d') = refl
  Parses-unique (star_end d) (star_cut d') = fail≢error (Parses-unique d d')
  Parses-unique (star_cut d) (star_next d' k) = matched≢failed (sym (Parses-unique d d'))
  Parses-unique (star_cut d) (star_end d') = fail≢error (sym (Parses-unique d d'))
  Parses-unique (star_cut d) (star_cut d') = refl
  Parses-unique (neg_fails d) (neg_fails d') = refl
  Parses-unique (neg_fails d) (neg_holds d') = matched≢failed (Parses-unique d d')
  Parses-unique (neg_holds d) (neg_fails d') = matched≢failed (sym (Parses-unique d d'))
  Parses-unique (neg_holds d) (neg_holds d') = refl
  Parses-unique (cut_reads d) (cut_reads d') = Parses-unique d d'
  Parses-unique (cut_reads d) (cut_fails d') = matched≢failed (Parses-unique d d')
  Parses-unique (cut_fails d) (cut_reads d') = matched≢failed (sym (Parses-unique d d'))
  Parses-unique (cut_fails d) (cut_fails d') = refl
  Parses-unique (rule_body f d) (rule_body f' d') =
      Parses-unique d (of_rule (some-injective _ _ (sym f ∙ f')) d')
  Parses-unique (look_twice d) (look_twice d') = Parses-unique d d'
  Parses-unique (plus_star d) (plus_star d') = Parses-unique d d'
  Parses-unique (opt_empty d) (opt_empty d') = Parses-unique d d'
