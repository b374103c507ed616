-- ===== src/Cst/Sexp.antt =====
-- lib/endb_cst/src/lib.rs, `events_to_sexp`: the events as a Lisp expression.
pub mod Laws
use Prim.Native.Nat.{◌/◌}
use endb.Prelude.{
  ℕ, zero, suc, ◌+◌, ◌%◌, String, Bool, true, false, Option, none, some, List, [], ◌∷◌, ◌++◌, ltb,
  ◌==◌, ◌>>=◌, if◌then◌else◌,
}
use endb.Prelude.Text.{Str, codes, slice}
use endb.Cst.Event.{Event, open_node, close_node}

-- the decimal digits of a number, on fuel that bounds their count
unfoldable pub digits : ℕ → ℕ → Str
digits zero n = []
digits (suc f) n =
    let higher = digits f (n / 10) in
    if ltb n 10 then (48 + n) ∷ [] else higher ++ (48 + n % 10) ∷ []

-- `write!(out, "{}", n)`
abbrev pub decimal : ℕ → Str
decimal n = digits (suc n) n

-- `.replace('"', "\\\"")`
unfoldable pub escape : Str → Str
escape [] = []
escape (c ∷ s) = let rest = escape s in if c == 34 then 92 ∷ 34 ∷ rest else c ∷ rest

-- what a token appends
unfoldable pub token_text : Str → ℕ → ℕ → Option Str
unfolding escape slice digits
token_text src a b = do
  text ← slice src a b
  some (
      codes " (\""
      ++ (escape text ++ (codes "\" " ++ (decimal a ++ (codes " " ++ (decimal b ++ codes ")"))))))

abbrev pub open_text : String → Str
open_text label = codes "(:|" ++ (codes label ++ codes "|")

-- `if !out.is_empty() { out.push(' '); }`
abbrev pub spaced : Str → Str
spaced [] = []
spaced (c ∷ s) = (c ∷ s) ++ codes " "

-- The body of the loop; `none` is the panic of a slice.
unfoldable pub sexp_event : Str → Str → Event → Option Str
unfolding token_text
sexp_event src out (open_node label pos false) = some (spaced out ++ open_text label)
sexp_event src out (open_node label pos true) = some out
sexp_event src out (Event.literal l a b) = do text ← token_text src a b; some (out ++ text)
sexp_event src out (Event.pattern a b) = do text ← token_text src a b; some (out ++ text)
sexp_event src out (close_node i false) = some (out ++ codes ")")
sexp_event src out (close_node i true) = some out
sexp_event src out (Event.error a b d) = some out

unfoldable pub events_to_sexp_into : Str → Str → List Event → Option Str
unfolding sexp_event
events_to_sexp_into src out [] = some out
events_to_sexp_into src out (e ∷ es) = do
  out' ← sexp_event src out e
  events_to_sexp_into src out' es

unfoldable pub events_to_sexp : Str → List Event → Option Str
unfolding events_to_sexp_into
events_to_sexp src events = events_to_sexp_into src [] events
