-- ===== src/Server/Params/Laws.antt =====
-- lib/endb_server/src/lib.rs: the parameters as a map.
use text.Mathlib.Text.{◌==◌ as str_eq}
use text.Mathlib.TextEquality.{eq_iff}
use mathlib.Core.List.{reverse, reverse-append}
use endb.Prelude.{
  String, true, false, none, some, List, [], ◌∷◌, ◌++◌, if◌then◌else◌, ◌≡◌, refl, sym, ap, ◌∙◌,
  subst, inl, inr, Bool-cases, append_assoc,
}
use endb.Server.Params.{Params, lookup, remove, insert, insert_all}

pub str_eq→eq : (s t : String) → str_eq s t ≡ true → s ≡ t
str_eq→eq s t h = (eq_iff s t).0 h

pub str_eq_refl : (s : String) → str_eq s s ≡ true
str_eq_refl s = (eq_iff s s).1 refl

lookup-remove_self : (k : String) (ps : Params) → lookup k (remove k ps) ≡ none
unfolding lookup remove
lookup-remove_self k [] = refl
lookup-remove_self k ((k', v) ∷ ps) = elim (Bool-cases (str_eq k k')) [
  | inl e ↦ rw e (lookup-remove_self k ps)
  | inr e ↦ simp e (lookup-remove_self k ps)
]

pub lookup-remove_other :
    (k k' : String) (ps : Params) → str_eq k k' ≡ false → lookup k (remove k' ps) ≡ lookup k ps
unfolding lookup remove
lookup-remove_other k k' [] h = refl
lookup-remove_other k k' ((l, v) ∷ ps) h = elim (Bool-cases (str_eq k' l)) [
  | inl e ↦
      let e' : str_eq k l ≡ false = subst (λ t. str_eq k t ≡ false) (str_eq→eq k' l e) h in
      simp (e, e') (lookup-remove_other k k' ps h)
  | inr e ↦ simp e (ap (λ t. if str_eq k l then some v else t) (lookup-remove_other k k' ps h))
]

-- what a key is bound to once another pair is inserted
pub lookup-insert :
    (k k' v : String) (ps : Params)
    → lookup k (insert k' v ps) ≡ (if str_eq k k' then some v else lookup k ps)
unfolding lookup insert
lookup-insert k k' v ps = elim (Bool-cases (str_eq k k')) [
  | inl e ↦ rw e refl
  | inr e ↦ simp e (lookup-remove_other k k' ps e)
]

lookup-after :
    (k : String) (xs ys zs : Params)
    → lookup k ys ≡ lookup k zs
    → lookup k (xs ++ ys) ≡ lookup k (xs ++ zs)
unfolding lookup
lookup-after k [] ys zs h = h
lookup-after k ((k', v) ∷ xs) ys zs h =
    ap (λ t. if str_eq k k' then some v else t) (lookup-after k xs ys zs h)

-- Inserting pairs one after the other binds each key to its last value, and keeps the old value of
-- a key that is in none of them.
pub lookup-insert_all :
    (k : String) (kvs : List (String × String)) (ps : Params)
    → lookup k (insert_all kvs ps) ≡ lookup k (reverse kvs ++ ps)
unfolding insert_all lookup
lookup-insert_all k [] ps = refl
lookup-insert_all k ((k', v) ∷ kvs) ps =
    lookup-insert_all k kvs (insert k' v ps)
    ∙ (lookup-after k (reverse kvs) (insert k' v ps) ((k', v) ∷ ps) (lookup-insert k k' v ps)
        ∙ ap (lookup k) (
            sym (append_assoc (reverse kvs) ((k', v) ∷ []) ps)
            ∙ ap (λ l. l ++ ps) (sym (reverse-append ((k', v) ∷ []) kvs))))

-- two maps that differ at most in the order of their entries
abbrev pub Same : Params → Params → Type 0
Same ps ps' = (k : String) → lookup k ps ≡ lookup k ps'
