-- ===== src/Cst/Report/Groups.antt =====
-- lib/endb_cst/src/lib.rs, `parse_errors_to_string`: the errors by their contexts. A hash map is a
-- list of its entries, and `iter` is the order in which it is read.
pub mod Totals
pub mod Laws
use text.Mathlib.Text.{◌==◌ as str_eq}
use endb.Prelude.{
  ℕ, ◌+◌, String, Bool, true, false, ◌&&◌, Option, none, some, List, [], ◌∷◌, ◌++◌, map, length,
  pop, ltb, ◌==◌, ◌>>=◌, if◌then◌else◌,
}
use endb.Prelude.Text.{codes, byte_len}
use endb.Cst.Event.{ParseErrorDescriptor, expected_literal, expected_pattern, labeled, unexpected}
use endb.Cst.Errors.{ParseError}
use endb.Cst.Report.Types.{list_eq}
use endb.Cst.Report.Sorting.{lex_le, sort, dedup}

abbrev pub Context : Type 0
Context = List String

abbrev pub Groups : Type 0
Groups = List (Context × List ParseError)

abbrev pub Sizes : Type 0
Sizes = List (Context × ℕ)

abbrev pub context_eq : Context → Context → Bool
context_eq = list_eq str_eq

-- the key of an error: the labels of its context, without the last for a pattern; `none` where
-- there is no last
unfoldable pub error_context : ParseError → Option Context
error_context e = elim e.descriptor [
  | expected_pattern _ ↦ (do context ← pop e.context; some (map (λ c. c.0) context))
  | _ ↦ some (map (λ c. c.0) e.context)
]

-- `acc.entry(key).or_default().append(errs)`
unfoldable pub append_errors : Context → List ParseError → Groups → Groups
append_errors key errs [] = (key, errs) ∷ []
append_errors key errs ((k, es) ∷ gs) =
    let rest = append_errors key errs gs in
    if context_eq key k then (k, es ++ errs) ∷ gs else (k, es) ∷ rest

-- `.entry(key).and_modify(|c| *c += n).or_insert(n)`
unfoldable pub add_size : Context → ℕ → Sizes → Sizes
add_size key n [] = (key, n) ∷ []
add_size key n ((k, m) ∷ ss) =
    let rest = add_size key n ss in if context_eq key k then (k, m + n) ∷ ss else (k, m) ∷ rest

unfoldable pub get_size : Context → Sizes → Option ℕ
get_size key [] = none
get_size key ((k, m) ∷ ss) = if context_eq key k then some m else get_size key ss

-- the first fold
unfoldable pub errors_by_context : List ParseError → Groups → Option Groups
unfolding error_context append_errors
errors_by_context [] acc = some acc
errors_by_context (e ∷ es) acc = do
  key ← error_context e
  errors_by_context es (append_errors key (e ∷ []) acc)

-- the body of the loop over its entries; `context[0..context.len() - 1]` panics on an empty context
unfoldable pub count_group : Context → List ParseError → Sizes → Option Sizes
unfolding add_size
count_group context errs sizes =
    if length errs == 1
    then (do parent ← pop context; some (add_size parent 1 sizes))
    else some (add_size context (length errs) sizes)

unfoldable pub target_sizes : Groups → Sizes → Option Sizes
unfolding count_group
target_sizes [] sizes = some sizes
target_sizes ((context, errs) ∷ gs) sizes = do
  sizes' ← count_group context errs sizes
  target_sizes gs sizes'

-- `Some(target_size) if *target_size > 1 && errs.len() == 1`
abbrev pub joins_parent : Option ℕ → List ParseError → Bool
joins_parent none errs = false
joins_parent (some target_size) errs = ltb 1 target_size && (length errs == 1)

-- the second fold
unfoldable pub merge_groups : Sizes → Groups → Groups → Option Groups
unfolding append_errors get_size
merge_groups sizes [] acc = some acc
merge_groups sizes ((context, errs) ∷ gs) acc = do
  parent ← pop context
  let key = if joins_parent (get_size parent sizes) errs then parent else context
  merge_groups sizes gs (append_errors key errs acc)

-- the key of `sort_by_key`
abbrev pub label_lengths : Context → List ℕ
label_lengths context = map (λ label. byte_len (codes label)) context

abbrev descriptor_eq : ParseErrorDescriptor → ParseErrorDescriptor → Bool
descriptor_eq (expected_literal a) (expected_literal b) = str_eq a b
descriptor_eq (expected_pattern a) (expected_pattern b) = str_eq a b
descriptor_eq (labeled a) (labeled b) = str_eq a b
descriptor_eq unexpected unexpected = true
descriptor_eq _ _ = false

abbrev error_eq : ParseError → ParseError → Bool
error_eq a b =
    descriptor_eq a.descriptor b.descriptor
    && ((a.start == b.start)
        && ((a.stop == b.stop)
            && list_eq (λ c d. str_eq c.0 d.0 && (c.1 == d.1)) a.context b.context))

abbrev pub group_eq : Context × List ParseError → Context × List ParseError → Bool
group_eq (k, es) (k', es') = context_eq k k' && list_eq error_eq es es'

unfoldable pub sorted_by_context_len : Groups → Groups
unfolding sort dedup lex_le
sorted_by_context_len gs =
    dedup group_eq (sort (λ g h. lex_le (label_lengths g.0) (label_lengths h.0)) gs)

unfoldable pub grouped : (Groups → Groups) → List ParseError → Option Groups
unfolding errors_by_context target_sizes merge_groups sorted_by_context_len
grouped iter errors = do
  by_context ← errors_by_context errors []
  sizes ← target_sizes (iter by_context) []
  merged ← merge_groups sizes (iter by_context) []
  some (sorted_by_context_len (iter merged))
