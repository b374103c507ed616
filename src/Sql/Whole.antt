-- ===== src/Sql/Whole.antt =====
-- lib/endb_cst/src/sql.rs: `sql_stmt_list` leaves nothing of the input.
use mathlib.Core.Option.{some-injective}
use endb.Prelude.{
  ℕ, String, none, some, [], ◌∷◌, ◌≡◌, ◌≢◌, refl, sym, ap, ◌∙◌, subst, arith, inl, inr,
  Option-cases,
}
use endb.Prelude.Text.{Str, byte_len, slice_from}
use endb.Prelude.Slices.{slice_from-zero, slice_from-at_end}
use endb.Cst.Event.{ParseState, ok}
use endb.Peg.Syntax.{
  PegParser, PegParsers, end, ◌▹◌, seq, pattern, literal, non_terminal, neg, opt, Rule, Grammar,
  find_rule,
}
use endb.Peg.Outcome.{done}
use endb.Peg.Leaf.{Crates, whitespace}
use endb.Peg.Progress.{RegexLaws}
use endb.Peg.Meaning.{
  matched, Parses, pattern_fails, literal_reads, seq_next, ord_first, ord_next, neg_holds,
  rule_body, opt_empty, skip_space,
}
use endb.Peg.Meaning.Sound.{run_means}
use endb.Sql.Grammar.{sql_grammar}
use endb.Sql.Ranks.{sql_analysis}
use endb.Sql.Parse.{sql_stmt_list}

-- What `.` and the white space rely on: `\A.` fails before a line feed or at the end only, and the
-- white space pattern matches everywhere and takes every line feed that comes next.
pub record LineLaws (lib : Crates) : Type 0 where
  pub dot_fails : (c : ℕ) (s : Str) → lib.find "\\A." (c ∷ s) ≡ none → c ≡ 10
  pub space_matches : (s : Str) → lib.find whitespace s ≢ none
  pub space_takes :
      (s : Str) {a b c : ℕ} {t : Str}
      → lib.find whitespace s ≡ some (a, b)
      → slice_from s b ≡ some (c ∷ t)
      → c ≢ 10

module _ (lib : Crates) (g : Grammar) where
  -- what reads a sequence reads its parts, one after the other
  seq_parts :
      {p : PegParser} {ps : PegParsers} {s u : Str}
      → Parses lib g (seq (p ▹ ps)) s (matched u)
      → (t : Str) × Parses lib g p s (matched t) × Parses lib g (seq ps) t (matched u)
  seq_parts (seq_next d d') = (_, d, d')

  last_part :
      {p : PegParser} {s u : Str}
      → Parses lib g (seq (p ▹ end)) s (matched u)
      → Parses lib g p s (matched u)
  last_part (seq_next d Parses.seq_end) = d

  -- a negation reads nothing
  neg_reads :
      {p : String} {s u : Str}
      → Parses lib g (neg (pattern p)) s (matched u)
      → (s ≡ u) × (lib.find p s ≡ none)
  neg_reads (neg_holds (pattern_fails n)) = (refl, n)

  -- a word that may be missing ends with white space
  opt_reads :
      {l : String} {s u : Str}
      → Parses lib g (opt (literal l)) s (matched u)
      → (t : Str) × (skip_space lib t ≡ some u)
  opt_reads (opt_empty (ord_first (literal_reads w k))) = (_, k)
  opt_reads (opt_empty (ord_next d (ord_first (literal_reads w k)))) = (_, k)
  opt_reads (opt_empty (ord_next d (ord_next d' none_left))) = elim none_left [ ]

  rule_reads :
      {id : String} {r : Rule} {s u : Str}
      → find_rule id g ≡ some r
      → Parses lib g (non_terminal id) s (matched u)
      → Parses lib g r.body s (matched u)
  rule_reads {s = s} {u = u} e (rule_body f d) =
      subst (λ (r : Rule). Parses lib g r.body s (matched u)) (some-injective _ _ (sym f ∙ e)) d

module _ (lib : Crates) (lines : LineLaws lib) where
  skip_space-taken :
      (t : Str) {a b : ℕ} {u : Str}
      → lib.find whitespace t ≡ some (a, b)
      → skip_space lib t ≡ some u
      → slice_from t b ≡ some u
  unfolding skip_space
  skip_space-taken t e k = ground (arith, e, k)

  -- after white space, `\A.` fails at the end only
  at_end : (t u : Str) → skip_space lib t ≡ some u → lib.find "\\A." u ≡ none → u ≡ []
  at_end t [] k n = refl
  at_end t (c ∷ u) k n = elim (Option-cases (lib.find whitespace t)) [
    | inl e ↦ absurd (lines.space_matches t e)
    | inr ((a, b), e) ↦
        absurd (lines.space_takes t e (skip_space-taken t e k) (lines.dot_fails c u n))
  ]

  stmt_list_end :
      {s u : Str} → Parses lib sql_grammar (non_terminal "sql_stmt_list") s (matched u) → u ≡ []
  unfolding find_rule
  stmt_list_end d =
      let (_, _, d₁) = seq_parts lib sql_grammar (rule_reads lib sql_grammar refl d) in
      let (_, _, d₂) = seq_parts lib sql_grammar d₁ in
      let (_, _, d₃) = seq_parts lib sql_grammar d₂ in
      let (_, o, d₄) = seq_parts lib sql_grammar d₃ in
      let (same, n) = neg_reads lib sql_grammar (last_part lib sql_grammar d₄) in
      let (t, k) = opt_reads lib sql_grammar o in sym same ∙ at_end t _ k n

  -- A parse that succeeds has read the whole input, if the regular expressions keep the stated laws:
  -- the grammar matches the input and leaves nothing of it, and the position is its end.
  pub sql_stmt_list_whole :
      (input : Str) (fuel pos : ℕ) (st st' : ParseState)
      → RegexLaws lib sql_analysis
      → sql_stmt_list lib fuel input 0 st ≡ done (ok pos) st'
      → (pos ≡ byte_len input)
        × Parses lib sql_grammar (non_terminal "sql_stmt_list") input (matched [])
  unfolding sql_stmt_list
  sql_stmt_list_whole input fuel pos st st' laws e =
      let (t, left, d) =
        run_means lib sql_grammar input sql_analysis laws fuel (non_terminal "sql_stmt_list") 0 st
          (slice_from-zero input) e in
      let nothing = stmt_list_end d in
      (
        slice_from-at_end input pos (left ∙ ap some nothing),
        subst (λ u. Parses lib sql_grammar (non_terminal "sql_stmt_list") input (matched u)) nothing
            d,
      )
