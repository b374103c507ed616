-- ===== src/Cst/Report/Groups/Laws.antt =====
-- lib/endb_cst/src/lib.rs, `parse_errors_to_string`: what becomes of the errors in the groups.
use endb.Prelude.{
  ℕ, ◌+◌, String, some, List, [], ◌∷◌, ◌≡◌, refl, sym, ap, ◌∙◌, subst, arith, inl, inr, Bool-cases,
  Option-cases, and-true, if◌then◌else◌, pop, pop-some, length, ◌==◌,
}
use mathlib.Core.Option.{some-injective}
use endb.Cst.Errors.{ParseError}
use endb.Cst.Report.Sorting.{sort, dedup, dedup_after, lex_le}
use endb.Cst.Report.Groups.{
  Context, Groups, Sizes, context_eq, append_errors, errors_by_context, error_context, count_group,
  target_sizes, merge_groups, joins_parent, get_size, sorted_by_context_len, grouped, group_eq,
  label_lengths, add_size,
}
use endb.Cst.Report.Groups.Totals.{
  Group, total, ReadsOnce, weigh, of_errors, at_key, Distinct, context_eq_refl, total-append_errors,
  zero-append_errors, Distinct-append_errors, total-sort,
}

errors_by_context-total :
    (w : ParseError → ℕ) (es : List ParseError) (acc : Groups) {gs : Groups}
    → errors_by_context es acc ≡ some gs
    → total (of_errors w) gs ≡ total (of_errors w) acc + weigh w es
unfolding errors_by_context
errors_by_context-total w [] acc h =
    ap (total (of_errors w)) (sym (some-injective _ _ h)) ∙ omega arith
errors_by_context-total w (e ∷ es) acc h = elim (Option-cases (error_context e)) [
  | inl n ↦ ground (arith, n, h)
  | inr (key, k) ↦
      let tail = errors_by_context-total w es (append_errors key (e ∷ []) acc) (simp k at h) in
      omega (arith, tail, total-append_errors w key (e ∷ []) acc)
]

merge_groups-total :
    (w : ParseError → ℕ) (sizes : Sizes) (gs acc : Groups) {hs : Groups}
    → merge_groups sizes gs acc ≡ some hs
    → total (of_errors w) hs ≡ total (of_errors w) acc + total (of_errors w) gs
unfolding merge_groups
merge_groups-total w sizes [] acc h =
    ap (total (of_errors w)) (sym (some-injective _ _ h)) ∙ omega arith
merge_groups-total w sizes ((context, errs) ∷ gs) acc h = elim (Option-cases (pop context)) [
  | inl n ↦ ground (arith, n, h)
  | inr (parent, k) ↦
      let key = if joins_parent (get_size parent sizes) errs then parent else context in
      let tail = merge_groups-total w sizes gs (append_errors key errs acc) (simp k at h) in
      omega (arith, tail, total-append_errors w key errs acc)
]

merge_groups-Distinct :
    (sizes : Sizes) (gs acc : Groups) {hs : Groups}
    → Distinct acc
    → merge_groups sizes gs acc ≡ some hs
    → Distinct hs
unfolding merge_groups
merge_groups-Distinct sizes [] acc d h = subst Distinct (some-injective _ _ h) d
merge_groups-Distinct sizes ((context, errs) ∷ gs) acc d h = elim (Option-cases (pop context)) [
  | inl n ↦ ground (arith, n, h)
  | inr (parent, k) ↦
      let key = if joins_parent (get_size parent sizes) errs then parent else context in
      merge_groups-Distinct sizes gs (append_errors key errs acc)
        (Distinct-append_errors key errs acc d) (simp k at h)
]

-- the groups have different keys, so that `dedup` takes nothing away
dedup_after-Distinct :
    (g : Group) (gs : Groups) → Distinct (g ∷ gs) → dedup_after group_eq g gs ≡ g ∷ gs
unfolding dedup_after
dedup_after-Distinct g [] d = refl
dedup_after-Distinct g (h ∷ hs) d = elim (Bool-cases (group_eq g h)) [
  | inl e ↦
      let (same, _) = and-true (context_eq g.0 h.0) _ e in
      let one : at_key g.0 g.0 ≡ 1 = simp (context_eq_refl g.0) refl in
      let two : at_key g.0 h.0 ≡ 1 = simp same refl in absurd (omega (arith, d g.0, one, two))
  | inr e ↦ simp e (ap (λ r. g ∷ r) (dedup_after-Distinct h hs λ k. omega (arith, d k)))
]

dedup-Distinct : (gs : Groups) → Distinct gs → dedup group_eq gs ≡ gs
unfolding dedup
dedup-Distinct [] d = refl
dedup-Distinct (g ∷ gs) d = dedup_after-Distinct g gs d

sorted-total :
    (f : Group → ℕ) (gs : Groups) → Distinct gs → total f (sorted_by_context_len gs) ≡ total f gs
unfolding sorted_by_context_len
sorted-total f gs d =
    let le = λ (g h : Group). lex_le (label_lengths g.0) (label_lengths h.0) in
    ap (total f) (dedup-Distinct (sort le gs) λ k. rw (total-sort (λ g. at_key k g.0) le gs) (d k))
    ∙ total-sort f le gs

module _ (iter : Groups → Groups) (once : ReadsOnce iter) where
  Distinct-iter : (gs : Groups) → Distinct gs → Distinct (iter gs)
  Distinct-iter gs d k = rw (once (λ g. at_key k g.0) gs) (d k)

  -- The groups hold each error as often as it was given, in whatever order the hash maps are read:
  -- for every weight, the errors in the groups weigh what the given errors weigh.
  pub grouped-total :
      (w : ParseError → ℕ) (errors : List ParseError) (gs : Groups)
      → grouped iter errors ≡ some gs
      → total (of_errors w) gs ≡ weigh w errors
  unfolding grouped
  grouped-total w errors gs h = elim (Option-cases (errors_by_context errors [])) [
    | inl n ↦ ground (arith, n, h)
    | inr (by_context, b) ↦ elim (Option-cases (target_sizes (iter by_context) [])) [
      | inl n ↦ ground (arith, b, n, h)
      | inr (sizes, s) ↦ elim (Option-cases (merge_groups sizes (iter by_context) [])) [
        | inl n ↦ ground (arith, b, s, n, h)
        | inr (merged, m) ↦
            let last : sorted_by_context_len (iter merged) ≡ gs =
              some-injective _ _ (simp (b, s, m) at h) in
            let distinct = merge_groups-Distinct sizes (iter by_context) [] (λ k. omega arith) m in
            ap (total (of_errors w)) (sym last)
            ∙ sorted-total (of_errors w) (iter merged) (Distinct-iter merged distinct)
            ∙ omega (
              arith,
              once (of_errors w) merged,
              merge_groups-total w sizes (iter by_context) [] m,
              once (of_errors w) by_context,
              errors_by_context-total w errors [] b,
            )
      ]
    ]
  ]

-- 1 for an empty context
abbrev empty : Context → ℕ
empty [] = 1
empty (x ∷ xs) = 0

-- an error that stands in a rule, a pattern in a rule within a rule
abbrev pub HasRule : ParseError → Type 0
HasRule e = (label : String) × (labels : Context) × (error_context e ≡ some (label ∷ labels))

abbrev pub AllHaveRule : List ParseError → Type 0
AllHaveRule [] = Unit {0}
AllHaveRule (e ∷ es) = HasRule e × AllHaveRule es

errors_by_context-some :
    (es : List ParseError) (acc : Groups)
    → AllHaveRule es
    → total (λ g. empty g.0) acc ≡ 0
    → (gs : Groups) × (errors_by_context es acc ≡ some gs) × (total (λ g. empty g.0) gs ≡ 0)
unfolding errors_by_context
errors_by_context-some [] acc h z = (acc, refl, z)
errors_by_context-some (e ∷ es) acc ((label, labels, k), h) z =
    let (gs, q, z') =
      errors_by_context-some es (append_errors (label ∷ labels) (e ∷ []) acc) h
        (zero-append_errors empty (label ∷ labels) (e ∷ []) acc refl z) in
    (gs, simp k q, z')

count_group-some :
    (context : Context) (errs : List ParseError) (sizes : Sizes)
    → empty context ≡ 0
    → (r : Sizes) × (count_group context errs sizes ≡ some r)
unfolding count_group
count_group-some [] errs sizes z = absurd (omega arith)
count_group-some (x ∷ xs) errs sizes z =
    let (parent, e, _) = pop-some x xs in
    elim (Bool-cases (length errs == 1)) [
      | inl l ↦ (add_size parent 1 sizes, simp (l, e) refl)
      | inr l ↦ (add_size (x ∷ xs) (length errs) sizes, simp l refl)
    ]

target_sizes-some :
    (gs : Groups) (sizes : Sizes)
    → total (λ g. empty g.0) gs ≡ 0
    → (r : Sizes) × (target_sizes gs sizes ≡ some r)
unfolding target_sizes
target_sizes-some [] sizes z = (sizes, refl)
target_sizes-some ((context, errs) ∷ gs) sizes z =
    let (sizes', e) = count_group-some context errs sizes (omega arith) in
    let (r, q) = target_sizes-some gs sizes' (omega arith) in (r, simp e q)

merge_groups-some :
    (sizes : Sizes) (gs acc : Groups)
    → total (λ g. empty g.0) gs ≡ 0
    → (r : Groups) × (merge_groups sizes gs acc ≡ some r)
unfolding merge_groups
merge_groups-some sizes [] acc z = (acc, refl)
merge_groups-some sizes (([], errs) ∷ gs) acc z = absurd (omega arith)
merge_groups-some sizes ((x ∷ xs, errs) ∷ gs) acc z =
    let (parent, e, _) = pop-some x xs in
    let key = if joins_parent (get_size parent sizes) errs then parent else x ∷ xs in
    let (r, q) = merge_groups-some sizes gs (append_errors key errs acc) (omega arith) in
    (r, simp e q)

pub grouped-some :
    (iter : Groups → Groups) (errors : List ParseError)
    → ReadsOnce iter
    → AllHaveRule errors
    → (gs : Groups) × (grouped iter errors ≡ some gs)
unfolding grouped
grouped-some iter errors once h =
    let (by_context, b, z) = errors_by_context-some errors [] h refl in
    let z' = once (λ g. empty g.0) by_context ∙ z in
    let (sizes, s) = target_sizes-some (iter by_context) [] z' in
    let (merged, m) = merge_groups-some sizes (iter by_context) [] z' in
    (sorted_by_context_len (iter merged), simp (b, s, m) refl)
