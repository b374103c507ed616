-- ===== src/Peg/WellFormed.antt =====
-- When the recursive descent that the macro generates terminates: a decidable condition on a
-- grammar, in the manner of Ford's well-formedness of parsing expression grammars. No rule may
-- reach itself before input is consumed, and no repeated parser may succeed without consuming.
use mathlib.Core.Option.{some-injective}
use text.Mathlib.Text.{◌==◌}
use text.Mathlib.TextEquality.{eq_iff}
use endb.Prelude.{
  ℕ, ◌+◌, ◌<◌, String, Bool, true, false, ◌&&◌, ◌||◌, not, none, some, List, [], ◌∷◌, ◌≡◌, refl,
  inl, inr, arith, ltb, Bool-cases, and-true, subst, ltb→lt, sym, ◌∙◌,
}
use endb.Prelude.Text.{codes}
use endb.Peg.Syntax.{
  PegParser, PegParsers, end, ◌▹◌, seq, ord, pattern, literal, non_terminal, neg, look, cut, star,
  plus, opt, Rule, Grammar, find_rule,
}

-- What is claimed of a grammar, to be checked: the patterns and the rules whose every match
-- consumes input, a rank for each rule that falls along calls made before input is consumed, a
-- bound above the ranks and one above the sizes of the bodies.
pub record Analysis : Type 0 where
  pub consuming_pattern : String → Bool
  pub consuming_rule : String → Bool
  pub rank : String → ℕ
  pub top : ℕ
  pub size_bound : ℕ

abbrev pub has_rule : String → Grammar → Bool
has_rule id g = elim (find_rule id g) [ none ↦ false | some _ ↦ true ]

abbrev pub is_empty : List ℕ → Bool
is_empty [] = true
is_empty _ = false

-- The calls that a parser makes on its own text, at most.
unfoldable mutual
  pub size : PegParser → ℕ
  size (pattern p) = 1
  size (literal l) = 1
  size (non_terminal id) = 1
  size (seq ps) = 1 + size_all ps
  size (ord ps) = 1 + size_all ps
  size (neg p) = 1 + size p
  size (look p) = 3 + size p
  size (cut p) = 1 + size p
  size (star p) = 2 + size p
  size (plus p) = 9 + size p + size p
  size (opt p) = 6 + size p

  pub size_all : PegParsers → ℕ
  size_all end = 1
  size_all (p ▹ ps) = 1 + size p + size_all ps

module _ (a : Analysis) where
  -- every success consumes input
  unfoldable mutual
    pub consuming : PegParser → Bool
    consuming (pattern p) = a.consuming_pattern p
    consuming (literal l) = not (is_empty (codes l))
    consuming (non_terminal id) = a.consuming_rule id
    consuming (seq ps) = some_consuming ps
    consuming (ord ps) = all_consuming ps
    consuming (cut p) = consuming p
    consuming (plus p) = consuming p
    consuming (star p) = false
    consuming (opt p) = false
    consuming (neg p) = false
    consuming (look p) = false

    pub some_consuming : PegParsers → Bool
    some_consuming end = false
    some_consuming (p ▹ ps) = consuming p || some_consuming ps

    pub all_consuming : PegParsers → Bool
    all_consuming end = true
    all_consuming (p ▹ ps) = consuming p && all_consuming ps

  -- what is called before input is consumed has a rank below `n`
  unfoldable mutual
    pub left_below : ℕ → PegParser → Bool
    left_below n (pattern p) = true
    left_below n (literal l) = true
    left_below n (non_terminal id) = ltb (a.rank id) n
    left_below n (seq ps) = seq_left_below n ps
    left_below n (ord ps) = all_left_below n ps
    left_below n (neg p) = left_below n p
    left_below n (look p) = left_below n p
    left_below n (cut p) = left_below n p
    left_below n (star p) = left_below n p
    left_below n (plus p) = left_below n p
    left_below n (opt p) = left_below n p

    pub seq_left_below : ℕ → PegParsers → Bool
    seq_left_below n end = true
    seq_left_below n (p ▹ ps) = left_below n p && (consuming p || seq_left_below n ps)

    pub all_left_below : ℕ → PegParsers → Bool
    all_left_below n end = true
    all_left_below n (p ▹ ps) = left_below n p && all_left_below n ps

  module _ (g : Grammar) where
    -- each rule that is named exists with a rank below `top`, and what is repeated consumes
    unfoldable mutual
      pub sound : PegParser → Bool
      sound (pattern p) = true
      sound (literal l) = true
      sound (non_terminal id) = has_rule id g && ltb (a.rank id) a.top
      sound (seq ps) = all_sound ps
      sound (ord ps) = all_sound ps
      sound (neg p) = sound p
      sound (look p) = sound p
      sound (cut p) = sound p
      sound (star p) = consuming p && sound p
      sound (plus p) = consuming p && sound p
      sound (opt p) = sound p

      pub all_sound : PegParsers → Bool
      all_sound end = true
      all_sound (p ▹ ps) = sound p && all_sound ps

    unfoldable pub rule_well_formed : Rule → Bool
    unfolding sound left_below consuming size
    rule_well_formed r =
        (sound r.body && left_below (a.rank r.id) r.body)
        && (ltb (size r.body) a.size_bound && (not (a.consuming_rule r.id) || consuming r.body))

    unfoldable pub all_well_formed : Grammar → Bool
    unfolding rule_well_formed
    all_well_formed [] = true
    all_well_formed (r ∷ rs) = rule_well_formed r && all_well_formed rs

  unfoldable pub well_formed : Grammar → Bool
  unfolding all_well_formed
  well_formed g = all_well_formed g g

  -- what the check says of the rule that a name denotes
  pub record RuleLaws (g : Grammar) (id : String) (r : Rule) : Type 0 where
    pub body_sound : sound g r.body ≡ true
    pub body_left : left_below (a.rank id) r.body ≡ true
    pub body_size : size r.body < a.size_bound
    pub body_consuming : a.consuming_rule id ≡ true → consuming r.body ≡ true

  rule_well_formed-RuleLaws :
      (g : Grammar) (r : Rule) → rule_well_formed g r ≡ true → RuleLaws g r.id r
  unfolding rule_well_formed
  rule_well_formed-RuleLaws g r h =
      let (left, right) = and-true _ _ h in
      let (s, l) = and-true _ _ left in
      let (z, c) = and-true _ _ right in
      record {
        body_sound = s;
        body_left = l;
        body_size = ltb→lt _ _ z;
        body_consuming = λ e. ground arith;
      }

  find_rule_laws :
      (g rs : Grammar) (id : String) {r : Rule}
      → all_well_formed g rs ≡ true
      → find_rule id rs ≡ some r
      → RuleLaws g id r
  unfolding all_well_formed find_rule
  find_rule_laws g [] id h e = cc
  find_rule_laws g (r ∷ rs) id {r = r'} h e = elim (Bool-cases (r.id == id)) [
    | inl q ↦
        let same : find_rule id (r ∷ rs) ≡ some r = rw q in
        let laws = rule_well_formed-RuleLaws g r (and-true _ _ h).0 in
        let here = subst (λ i. RuleLaws g i r) ((eq_iff r.id id).0 q) laws in
        subst (λ x. RuleLaws g id x) (some-injective _ _ (sym same ∙ e)) here
    | inr q ↦
        let next : find_rule id (r ∷ rs) ≡ find_rule id rs = rw q in
        find_rule_laws g rs id (and-true _ _ h).1 (sym next ∙ e)
  ]

  -- A rule of a well-formed grammar has what the check asks for.
  pub find_rule-RuleLaws :
      (g : Grammar) (id : String) {r : Rule}
      → well_formed g ≡ true
      → find_rule id g ≡ some r
      → RuleLaws g id r
  unfolding well_formed
  find_rule-RuleLaws g id h e = find_rule_laws g g id h e

  mutual
    unfolding sound left_below

    -- A sound parser calls only rules that rank below `top`.
    pub left_below_top :
        (g : Grammar) (p : PegParser) → sound g p ≡ true → left_below a.top p ≡ true
    left_below_top g (pattern p) h = refl
    left_below_top g (literal l) h = refl
    left_below_top g (non_terminal id) h = (and-true _ _ h).1
    left_below_top g (seq ps) h = seq_left_below_top g ps h
    left_below_top g (ord ps) h = all_left_below_top g ps h
    left_below_top g (neg p) h = left_below_top g p h
    left_below_top g (look p) h = left_below_top g p h
    left_below_top g (cut p) h = left_below_top g p h
    left_below_top g (star p) h = left_below_top g p (and-true _ _ h).1
    left_below_top g (plus p) h = left_below_top g p (and-true _ _ h).1
    left_below_top g (opt p) h = left_below_top g p h

    pub seq_left_below_top :
        (g : Grammar) (ps : PegParsers) → all_sound g ps ≡ true → seq_left_below a.top ps ≡ true
    seq_left_below_top g end h = refl
    seq_left_below_top g (p ▹ ps) h =
        let (first, rest) = and-true (sound g p) (all_sound g ps) h in
        ground (arith, left_below_top g p first, seq_left_below_top g ps rest)

    pub all_left_below_top :
        (g : Grammar) (ps : PegParsers) → all_sound g ps ≡ true → all_left_below a.top ps ≡ true
    all_left_below_top g end h = refl
    all_left_below_top g (p ▹ ps) h =
        let (first, rest) = and-true (sound g p) (all_sound g ps) h in
        ground (arith, left_below_top g p first, all_left_below_top g ps rest)
