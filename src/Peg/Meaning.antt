-- ===== src/Peg/Meaning.antt =====
-- The meaning of a grammar, on texts: no positions, no state and no events. The `^` of the macro is
-- the failure `error`, which no choice and no repetition goes past.
mod Leaf
pub mod Sound
pub mod Deterministic
pub mod Complete
unfoldable pub use Leaf.{skip_space, word}
use endb.Prelude.{ℕ, String, Option, none, some, ◌≡◌}
use endb.Prelude.Text.{Str, slice_from}
use endb.Cst.Event.{ParseErr, fail}
use endb.Peg.Syntax.{
  PegParser, PegParsers, end, ◌▹◌, seq, ord, pattern, literal, non_terminal, neg, look, cut, star,
  plus, opt, Rule, Grammar, find_rule,
}
use endb.Peg.Leaf.{Crates}

-- what is left of the text, or how it failed
pub data Answer : Type 0 where
  matched : Str → Answer
  failed : ParseErr → Answer

-- `Parses lib g p s o`: read from the text `s`, the parser `p` answers `o`
pub data Parses (lib : Crates) (g : Grammar) : PegParser → Str → Answer → Type 0 where
  pattern_reads :
      {p : String} {s t u : Str} {a b : ℕ}
      → lib.find p s ≡ some (a, b)
      → slice_from s b ≡ some t
      → skip_space lib t ≡ some u
      → Parses lib g (pattern p) s (matched u)
  pattern_fails :
      {p : String} {s : Str} → lib.find p s ≡ none → Parses lib g (pattern p) s (failed fail)
  literal_reads :
      {l : String} {s t u : Str}
      → word lib l s ≡ some t
      → skip_space lib t ≡ some u
      → Parses lib g (literal l) s (matched u)
  literal_fails :
      {l : String} {s : Str} → word lib l s ≡ none → Parses lib g (literal l) s (failed fail)
  seq_end : {s : Str} → Parses lib g (seq end) s (matched s)
  seq_next :
      {p : PegParser} {ps : PegParsers} {s t : Str} {o : Answer}
      → Parses lib g p s (matched t)
      → Parses lib g (seq ps) t o
      → Parses lib g (seq (p ▹ ps)) s o
  seq_fails :
      {p : PegParser} {ps : PegParsers} {s : Str} {e : ParseErr}
      → Parses lib g p s (failed e)
      → Parses lib g (seq (p ▹ ps)) s (failed e)
  ord_end : {s : Str} → Parses lib g (ord end) s (failed fail)
  ord_first :
      {p : PegParser} {ps : PegParsers} {s t : Str}
      → Parses lib g p s (matched t)
      → Parses lib g (ord (p ▹ ps)) s (matched t)
  ord_next :
      {p : PegParser} {ps : PegParsers} {s : Str} {o : Answer}
      → Parses lib g p s (failed fail)
      → Parses lib g (ord ps) s o
      → Parses lib g (ord (p ▹ ps)) s o
  ord_cut :
      {p : PegParser} {ps : PegParsers} {s : Str}
      → Parses lib g p s (failed ParseErr.error)
      → Parses lib g (ord (p ▹ ps)) s (failed ParseErr.error)
  star_next :
      {p : PegParser} {s t : Str} {o : Answer}
      → Parses lib g p s (matched t)
      → Parses lib g (star p) t o
      → Parses lib g (star p) s o
  star_end :
      {p : PegParser} {s : Str}
      → Parses lib g p s (failed fail)
      → Parses lib g (star p) s (matched s)
  star_cut :
      {p : PegParser} {s : Str}
      → Parses lib g p s (failed ParseErr.error)
      → Parses lib g (star p) s (failed ParseErr.error)
  neg_fails :
      {p : PegParser} {s t : Str}
      → Parses lib g p s (matched t)
      → Parses lib g (neg p) s (failed fail)
  neg_holds :
      {p : PegParser} {s : Str} {e : ParseErr}
      → Parses lib g p s (failed e)
      → Parses lib g (neg p) s (matched s)
  cut_reads :
      {p : PegParser} {s t : Str}
      → Parses lib g p s (matched t)
      → Parses lib g (cut p) s (matched t)
  cut_fails :
      {p : PegParser} {s : Str} {e : ParseErr}
      → Parses lib g p s (failed e)
      → Parses lib g (cut p) s (failed ParseErr.error)
  rule_body :
      {id : String} {rule : Rule} {s : Str} {o : Answer}
      → find_rule id g ≡ some rule
      → Parses lib g rule.body s o
      → Parses lib g (non_terminal id) s o
  look_twice :
      {p : PegParser} {s : Str} {o : Answer}
      → Parses lib g (neg (neg p)) s o
      → Parses lib g (look p) s o
  plus_star :
      {p : PegParser} {s : Str} {o : Answer}
      → Parses lib g (seq (p ▹ star p ▹ end)) s o
      → Parses lib g (plus p) s o
  opt_empty :
      {p : PegParser} {s : Str} {o : Answer}
      → Parses lib g (ord (p ▹ literal "" ▹ end)) s o
      → Parses lib g (opt p) s o
