-- ===== src/Cst/Report/Found.antt =====
-- lib/endb_cst/src/lib.rs, `parse_errors_to_string`: the range of the error and the text in it.
pub mod Laws
use endb.Prelude.{
  ℕ, suc, ◌+◌, Bool, true, false, Option, none, some, List, [], ◌∷◌, ◌++◌, if◌then◌else◌, get_elem?,
  ◌>>=◌,
}
use endb.Prelude.Text.{Str, slice, slice_from, is_ascii_punctuation}
use endb.Cst.Errors.{ParseError}

-- the functions on characters that depend on the tables of Unicode
pub record Unicode : Type 0 where
  pub is_alphanumeric : ℕ → Bool
  pub is_whitespace : ℕ → Bool
  pub to_uppercase : ℕ → Str

-- `errors.first().map(|e| e.range.start).unwrap_or(0)`
abbrev pub error_start : List ParseError → ℕ
error_start [] = 0
error_start (e ∷ _) = e.start

-- how many characters at the front pass the test
unfoldable pub count_while : (ℕ → Bool) → Str → ℕ
count_while test [] = 0
count_while test (c ∷ s) = let rest = count_while test s in if test c then suc rest else 0

-- `src.chars().nth(start).map_or(false, |c| c.is_ascii_punctuation())`
unfoldable pub starts_punctuation : Str → ℕ → Bool
unfolding is_ascii_punctuation
starts_punctuation src start = elim (get_elem? src start) [
  | none ↦ false
  | some c ↦ is_ascii_punctuation c
]

module _ (u : Unicode) where
  -- the test of `take_while`
  unfoldable pub same_kind : Bool → ℕ → Bool
  unfolding is_ascii_punctuation
  same_kind punctuation c = if punctuation then is_ascii_punctuation c else u.is_alphanumeric c

  -- the end of the range; `none` is the panic of the slice
  unfoldable pub error_end : Str → ℕ → Option ℕ
  unfolding slice_from count_while starts_punctuation same_kind
  error_end src start = do
    rest ← slice_from src start
    some (start + count_while (same_kind (starts_punctuation src start)) rest)

  unfoldable pub trim_start : Str → Str
  trim_start [] = []
  trim_start (c ∷ s) = let rest = trim_start s in if u.is_whitespace c then rest else c ∷ s

  unfoldable pub trim_end : Str → Str
  trim_end [] = []
  trim_end (c ∷ s) = elim (trim_end s) [
    | [] ↦ if u.is_whitespace c then [] else c ∷ []
    | d ∷ t ↦ c ∷ d ∷ t
  ]

  -- `&src[range.clone()].trim()`
  unfoldable pub found : Str → ℕ → ℕ → Option Str
  unfolding slice trim_start trim_end
  found src start stop = do text ← slice src start stop; some (trim_end (trim_start text))

  -- `str::to_uppercase`
  unfoldable pub uppercase : Str → Str
  uppercase [] = []
  uppercase (c ∷ s) = u.to_uppercase c ++ uppercase s
