-- ===== src/Peg/Meaning/Complete.antt =====
-- lib/endb_proc_macro/src/lib.rs: the functions of a well-formed grammar find its meaning.
use endb.Prelude.{ℕ, ◌+◌, ◌<◌, ◌≡◌, refl, String, true, ◌⊎◌, inl, inr, some}
use endb.Prelude.Text.{Str, byte_len, slice_from}
use endb.Cst.Event.{ParseState, ParseResult, ok, err}
use endb.Peg.Syntax.{PegParser, non_terminal, Grammar}
use endb.Peg.Outcome.{done, fault, overflow}
use endb.Peg.Leaf.{Crates, u32_mod}
use endb.Peg.Machine.{run}
use endb.Peg.Progress.{RegexLaws, allowance, rule_returns}
use endb.Peg.WellFormed.{Analysis, well_formed, has_rule}
use endb.Peg.Meaning.{Answer, matched, failed, Parses}
use endb.Peg.Meaning.Sound.{Answers, run_means}
use endb.Peg.Meaning.Deterministic.{Parses-unique}

-- the result says what the answer says: the text that is left, or the failure
abbrev pub Says : Str → Answer → ParseResult → Type 0
Says input (matched t) (ok pos) = slice_from input pos ≡ some t
Says input (failed e) (err x) = x ≡ e
Says input (matched t) (err x) = ⊥
Says input (failed e) (ok pos) = ⊥

-- a text has a meaning, and only one
abbrev pub Means : Crates → Grammar → PegParser → Str → Answer → Type 0
Means lib g p s o = Parses lib g p s o × ((o' : Answer) → Parses lib g p s o' → o ≡ o')

means :
    (lib : Crates) (g : Grammar) (input : Str) (p : PegParser) (s : Str) (r : ParseResult)
    → Answers lib g input p s r
    → (o : Answer) × Says input o r × Means lib g p s o
means lib g input p s (ok pos) (t, at, d) = (matched t, at, (d, λ o' d'. Parses-unique lib g d d'))
means lib g input p s (err e) d = (failed e, refl, (d, λ o' d'. Parses-unique lib g d d'))

module _ (lib : Crates) (g : Grammar) (a : Analysis) (input : Str) (laws : RegexLaws lib a)
    (good : well_formed a g ≡ true) (small : byte_len input < u32_mod) where
  -- Every rule of a well-formed grammar gives a meaning, and only one, to each text at a boundary of
  -- an input shorter than 2^32 bytes, and its function returns what the meaning says, or the number
  -- of events outgrew a `u32`, given regular expressions that keep the stated laws and the stated
  -- fuel.
  pub rule-Means :
      (id : String) (pos : ℕ) (st : ParseState) (f : ℕ) {s : Str}
      → has_rule id g ≡ true
      → a.rank id < a.top
      → slice_from input pos ≡ some s
      → allowance a input pos a.top + 1 < f
      → ((r : ParseResult) × (st' : ParseState) × (o : Answer) × (run lib g input f
              (non_terminal id)
              pos
              st
            ≡ done r st')
          × Says input o r
          × Means lib g (non_terminal id) s o)
        ⊎ (run lib g input f (non_terminal id) pos st ≡ fault overflow)
  rule-Means id pos st f {s} exists low at h =
      elim (rule_returns lib g a input laws good small id pos st f exists low (s, at) h) [
        | inr e ↦ inr e
        | inl (r, st', e, _) ↦
            let (o, says, m) =
              means lib g input (non_terminal id) s r
                (run_means lib g input a laws f (non_terminal id) pos st at e) in
            inl (r, st', o, e, says, m)
      ]
