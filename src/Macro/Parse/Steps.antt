-- ===== src/Macro/Parse/Steps.antt =====
-- lib/endb_proc_macro/src/lib.rs: the steps of reading what is printed.
use endb.Prelude.{
  ℕ, zero, suc, ◌+◌, ◌<◌, ◌≤◌, String, Bool, true, false, not, List, [], ◌∷◌, ◌≡◌, refl, arith,
  if◌then◌else◌,
}
use endb.Prelude.Text.{codes}
use endb.Macro.Result.{ok, ◌>>=◌}
use endb.Macro.Tokens.{Tokens, eof, ◌◃◌, bang, amp, caret, slash, semi, lit, ident, paren, size}
use endb.Macro.Parse.{
  stops, parse_prefixes, add_prefixes, parse_suffix, make_seq, make_ord, is_keyword, parse_atom,
  parse_items, parse_alternatives, parse_more, parse_ord,
}
use endb.Macro.Print.{print, print_items, print_further, is_single, is_end, canonical}
use endb.Peg.Syntax.{
  PegParser, PegParsers, end, ◌▹◌, seq, ord, pattern, literal, non_terminal, neg, look, cut,
}

pub stops-print : (p : PegParser) (rest : Tokens) → stops (print p rest) ≡ false
unfolding stops print
stops-print (pattern _) rest = refl
stops-print _ rest = refl

pub parse_prefixes-print :
    (p : PegParser) (rest : Tokens) → parse_prefixes (print p rest) ≡ ([], print p rest)
unfolding parse_prefixes print
parse_prefixes-print (pattern _) rest = refl
parse_prefixes-print _ rest = refl

pub parse_prefixes-bang :
    (p : PegParser) (rest : Tokens)
    → parse_prefixes (bang ◃ print p rest) ≡ (neg ∷ [], print p rest)
unfolding parse_prefixes print
parse_prefixes-bang (pattern _) rest = refl
parse_prefixes-bang _ rest = refl

pub parse_prefixes-amp :
    (p : PegParser) (rest : Tokens)
    → parse_prefixes (amp ◃ print p rest) ≡ (look ∷ [], print p rest)
unfolding parse_prefixes print
parse_prefixes-amp (pattern _) rest = refl
parse_prefixes-amp _ rest = refl

pub parse_prefixes-caret :
    (p : PegParser) (rest : Tokens)
    → parse_prefixes (caret ◃ print p rest) ≡ (cut ∷ [], print p rest)
unfolding parse_prefixes print
parse_prefixes-caret (pattern _) rest = refl
parse_prefixes-caret _ rest = refl

pub parse_suffix-print :
    (q p : PegParser) (rest : Tokens) → parse_suffix q (print p rest) ≡ (q, print p rest)
unfolding parse_suffix print
parse_suffix-print q (pattern _) rest = refl
parse_suffix-print q _ rest = refl

pub parse_suffix-print_items :
    (q : PegParser) (ps : PegParsers)
    → parse_suffix q (print_items ps eof) ≡ (q, print_items ps eof)
unfolding parse_suffix print
parse_suffix-print_items q end = refl
parse_suffix-print_items q (p ▹ ps) = parse_suffix-print q p (print_items ps eof)

pub parse_suffix-print_further :
    (q : PegParser) (ps : PegParsers)
    → parse_suffix q (print_further ps eof) ≡ (q, print_further ps eof)
unfolding parse_suffix print
parse_suffix-print_further q end = refl
parse_suffix-print_further q (p ▹ ps) = refl

pub stops-print_further : (ps : PegParsers) → stops (print_further ps eof) ≡ true
unfolding stops print
stops-print_further end = refl
stops-print_further (p ▹ ps) = refl

pub size-print : (p : PegParser) (rest : Tokens) → size rest < size (print p rest)
unfolding print
size-print (pattern _) rest = omega arith
size-print (seq _) rest = omega arith
size-print _ rest = omega arith

module _ (is_uppercase : ℕ → Bool) where
  -- one round of the `while`
  pub parse_items-step :
      (f : ℕ) (ts : Tokens) {prefixes : List (PegParser → PegParser)} {atom q : PegParser}
      {ts₁ ts₂ ts₃ : Tokens}
      → stops ts ≡ false
      → parse_prefixes ts ≡ (prefixes, ts₁)
      → parse_atom is_uppercase f ts₁ ≡ ok (atom, ts₂)
      → parse_suffix (add_prefixes prefixes atom) ts₂ ≡ (q, ts₃)
      → parse_items is_uppercase (suc f) ts
        ≡ (do (ps, left) ← parse_items is_uppercase f ts₃; ok (q ▹ ps, left))
  unfolding parse_items
  parse_items-step f ts h p a s = simp (h, p, a, s) refl

  pub parse_items-stops :
      (f : ℕ) (ts : Tokens) → stops ts ≡ true → parse_items is_uppercase (suc f) ts ≡ ok (end, ts)
  unfolding parse_items
  parse_items-stops f ts h = simp h refl

  -- a group that holds one item
  pub parse_atom-group :
      (f : ℕ) (p : PegParser) (ts rest : Tokens)
      → parse_items is_uppercase (suc f) ts ≡ ok (p ▹ end, eof)
      → parse_atom is_uppercase (suc (suc (suc (suc f)))) (paren ts ◃ rest) ≡ ok (p, rest)
  unfolding parse_atom make_seq make_ord
  parse_atom-group f p ts rest h = simp h refl

  -- one item, and then the end
  pub parse_items-one :
      (f : ℕ) (ts : Tokens) {prefixes : List (PegParser → PegParser)} {atom q : PegParser}
      {ts₁ ts₂ ts₃ : Tokens}
      → stops ts ≡ false
      → parse_prefixes ts ≡ (prefixes, ts₁)
      → parse_atom is_uppercase (suc f) ts₁ ≡ ok (atom, ts₂)
      → parse_suffix (add_prefixes prefixes atom) ts₂ ≡ (q, ts₃)
      → stops ts₃ ≡ true
      → parse_items is_uppercase (suc (suc f)) ts ≡ ok (q ▹ end, ts₃)
  parse_items-one f ts {ts₃} h p a s e =
      simp (parse_items-step (suc f) ts h p a s, parse_items-stops f ts₃ e) refl

  pub parse_more-eof :
      (f : ℕ) (p : PegParser) → parse_more is_uppercase (suc f) p eof ≡ ok (p ▹ end, eof)
  unfolding parse_more
  parse_more-eof f p = refl

  pub parse_more-slash :
      (f : ℕ) (p : PegParser) (ts : Tokens) {ps : PegParsers}
      → parse_alternatives is_uppercase f ts ≡ ok (ps, eof)
      → parse_more is_uppercase (suc f) p (slash ◃ ts) ≡ ok (p ▹ ps, eof)
  unfolding parse_more
  parse_more-slash f p ts h = simp h refl

  pub parse_alternatives-step :
      (f : ℕ) (p : PegParser) (ts rest : Tokens) {ps : PegParsers}
      → parse_items is_uppercase f ts ≡ ok (p ▹ end, rest)
      → parse_more is_uppercase f p rest ≡ ok (ps, eof)
      → parse_alternatives is_uppercase (suc f) ts ≡ ok (ps, eof)
  unfolding parse_alternatives make_seq
  parse_alternatives-step f p ts rest h m = simp (h, m) refl

  pub parse_ord-one :
      (f : ℕ) (p : PegParser) (ts rest : Tokens)
      → parse_items is_uppercase (suc (suc f)) ts ≡ ok (p ▹ end, semi ◃ rest)
      → parse_ord is_uppercase (suc (suc (suc (suc f)))) ts ≡ ok (p, semi ◃ rest)
  unfolding parse_ord make_seq make_ord
  parse_ord-one f p ts rest h = simp h refl

  -- a group of several items, and one of several alternatives
  pub parse_atom-seq :
      (f : ℕ) (ps : PegParsers) (ts rest : Tokens)
      → not (is_single ps) ≡ true
      → parse_items is_uppercase (suc f) ts ≡ ok (ps, eof)
      → parse_atom is_uppercase (suc (suc (suc (suc f)))) (paren ts ◃ rest) ≡ ok (seq ps, rest)
  unfolding parse_atom make_seq make_ord
  parse_atom-seq f end ts rest n h = simp h refl
  parse_atom-seq f (p ▹ end) ts rest n h = ground (arith, n)
  parse_atom-seq f (p ▹ q ▹ ps) ts rest n h = simp h refl

  pub parse_atom-ord :
      (f : ℕ) (ps : PegParsers) (ts rest : Tokens)
      → not (is_single ps) ≡ true
      → not (is_end ps) ≡ true
      → parse_alternatives is_uppercase f ts ≡ ok (ps, eof)
      → parse_atom is_uppercase (suc (suc f)) (paren ts ◃ rest) ≡ ok (ord ps, rest)
  unfolding parse_atom make_ord
  parse_atom-ord f end ts rest n m h = ground (arith, m)
  parse_atom-ord f (p ▹ end) ts rest n m h = ground (arith, n)
  parse_atom-ord f (p ▹ q ▹ ps) ts rest n m h = simp h refl

-- fuel above four is five successors
pub spend :
    {n : ℕ} (P : ℕ → Type 0)
    → 4 ≤ n
    → ((f : ℕ) → n < 5 + f → P (suc (suc (suc (suc (suc f))))))
    → (f : ℕ) → n < f
    → P f
spend P l k zero h = absurd (omega arith)
spend P l k (suc zero) h = absurd (omega arith)
spend P l k (suc (suc zero)) h = absurd (omega arith)
spend P l k (suc (suc (suc zero))) h = absurd (omega arith)
spend P l k (suc (suc (suc (suc zero)))) h = absurd (omega arith)
spend P l k (suc (suc (suc (suc (suc f))))) h = k f (omega arith)

module _ (is_uppercase : ℕ → Bool) where
  pub word :
      (f : ℕ) (id : String) (rest : Tokens)
      → canonical is_uppercase (non_terminal id) ≡ true
      → parse_atom is_uppercase (suc f) (ident id ◃ rest) ≡ ok (non_terminal id, rest)
  unfolding parse_atom canonical
  word f id rest c =
      let k : is_keyword is_uppercase (codes id) ≡ false = ground (arith, c) in simp k refl

  pub literal_token :
      (f : ℕ) (raw : Bool) (text : String) (rest : Tokens)
      → parse_atom is_uppercase (suc f) (lit raw text ◃ rest)
        ≡ ok (if raw then pattern text else literal text, rest)
  unfolding parse_atom
  literal_token f raw text rest = refl

  -- a parser with a prefix, in its group, and one with a suffix
  pub prefixed :
      (f : ℕ) (p : PegParser) (k : PegParser → PegParser) (ts rest : Tokens)
      → stops ts ≡ false
      → parse_prefixes ts ≡ (k ∷ [], print p eof)
      → parse_atom is_uppercase (suc f) (print p eof) ≡ ok (p, eof)
      → parse_atom is_uppercase (suc (suc (suc (suc (suc f))))) (paren ts ◃ rest) ≡ ok (k p, rest)
  unfolding parse_suffix add_prefixes stops
  prefixed f p k ts rest h ps a =
      parse_atom-group is_uppercase (suc f) (k p) ts rest
        (parse_items-one is_uppercase f ts h ps a refl refl)

  pub suffixed :
      (f : ℕ) (p q : PegParser) (ts rest : Tokens)
      → parse_suffix p ts ≡ (q, eof)
      → parse_atom is_uppercase (suc f) (print p ts) ≡ ok (p, ts)
      → parse_atom is_uppercase (suc (suc (suc (suc (suc f))))) (paren (print p ts) ◃ rest)
        ≡ ok (q, rest)
  unfolding add_prefixes stops
  suffixed f p q ts rest s a = parse_atom-group is_uppercase (suc f) q (print p ts) rest (
      parse_items-one is_uppercase f (print p ts) (stops-print p ts) (parse_prefixes-print p ts) a s
        refl)
