-- ===== src/Prelude/Text.antt =====
-- `&str` as its code points, with Rust's byte positions in UTF-8.
use Prim.Native.Char.{code}
use Prim.Native.Nat.{ℕ, ◌+◌, ◌-◌, ◌≤◌}
use Prim.Native.String.{String}
use mathlib.Core.Bool.{Bool, true, false, ◌&&◌, ◌||◌}
use mathlib.Core.List.{List, [], ◌∷◌}
use mathlib.Core.Option.{Option, none, some}
use native.Mathlib.Omega.{arith}
use endb.Prelude.Tests.{ltb, leb, ◌==◌, if◌then◌else◌}

abbrev pub Str : Type 0
Str = List ℕ

abbrev pub codes : String → Str
codes String.[] = []
codes (String.◌∷◌ c s) = code c ∷ codes s

-- `char::len_utf8`
unfoldable pub len_utf8 : ℕ → ℕ
len_utf8 c = if ltb c 0x80 then 1 else if ltb c 0x800 then 2 else if ltb c 0x10000 then 3 else 4

pub len_utf8_pos : (c : ℕ) → 1 ≤ len_utf8 c
unfolding len_utf8
len_utf8_pos c = ground arith

-- `str::len`
unfoldable pub byte_len : Str → ℕ
byte_len [] = 0
byte_len (c ∷ s) = len_utf8 c + byte_len s

-- `&s[i..]`; `none` where it panics: past the end, or inside a character
unfoldable pub slice_from : Str → ℕ → Option Str
slice_from [] i = if i == 0 then some [] else none
slice_from (c ∷ s) i =
    if i == 0
    then some (c ∷ s)
    else if ltb i (len_utf8 c)
    then none
    else slice_from s (i - len_utf8 c)

-- `&s[..i]`
unfoldable pub slice_to : Str → ℕ → Option Str
slice_to [] i = if i == 0 then some [] else none
slice_to (c ∷ s) i =
    let rest = slice_to s (i - len_utf8 c) in
    if i == 0
    then some []
    else if ltb i (len_utf8 c)
    then none
    else elim rest [ none ↦ none | some t ↦ some (c ∷ t) ]

-- `&s[a..b]`
unfoldable pub slice : Str → ℕ → ℕ → Option Str
unfolding slice_from slice_to
slice s a b =
    if leb a b then elim (slice_from s a) [ none ↦ none | some t ↦ slice_to t (b - a) ] else none

-- `str::is_char_boundary`
unfoldable pub is_char_boundary : Str → ℕ → Bool
unfolding slice_from
is_char_boundary s i = elim (slice_from s i) [ none ↦ false | some _ ↦ true ]

-- `u8::to_ascii_lowercase`
unfoldable pub to_ascii_lowercase : ℕ → ℕ
to_ascii_lowercase c = if leb b'A' c && leb c b'Z' then c + 32 else c

-- `str::eq_ignore_ascii_case`
unfoldable pub eq_ignore_ascii_case : Str → Str → Bool
unfolding to_ascii_lowercase
eq_ignore_ascii_case [] [] = true
eq_ignore_ascii_case [] (d ∷ t) = false
eq_ignore_ascii_case (c ∷ s) [] = false
eq_ignore_ascii_case (c ∷ s) (d ∷ t) =
    to_ascii_lowercase c == to_ascii_lowercase d && eq_ignore_ascii_case s t

-- `char::is_ascii_punctuation`
unfoldable pub is_ascii_punctuation : ℕ → Bool
is_ascii_punctuation c =
    (leb 33 c && leb c 47)
    || (leb 58 c && leb c 64)
    || (leb 91 c && leb c 96)
    || (leb 123 c && leb c 126)

unfoldable pub all_ascii_punctuation : Str → Bool
unfolding is_ascii_punctuation
all_ascii_punctuation [] = true
all_ascii_punctuation (c ∷ s) = is_ascii_punctuation c && all_ascii_punctuation s
