-- ===== src/Peg/Progress/Budget.antt =====
-- lib/endb_proc_macro/src/lib.rs: the fuel that a parser may spend, and how far a result has come.
use endb.Prelude.{
  ℕ, suc, ◌+◌, ◌-◌, ◌*◌, ◌≤◌, ◌<◌, Bool, true, false, some, ◌≡◌, refl, inl, inr, arith,
  Option-cases, String, ◌⊎◌, ◌||◌, ap, sym,
}
use mathlib.Core.Bool.{false≢true}
use endb.Prelude.Text.{Str, byte_len}
use endb.Cst.Event.{ParseState, ParseResult, ok, err}
use endb.Peg.Syntax.{Rule, Grammar, find_rule}
use endb.Peg.Outcome.{Outcome, done, fault, overflow}
use endb.Peg.WellFormed.{Analysis, has_rule}
use endb.Peg.Progress.Total.{Ends, Advances, returns, overflows}

-- What a parser may still spend at `pos`, called where the rank is `n`.
abbrev pub allowance : Analysis → Str → ℕ → ℕ → ℕ
allowance a input pos n =
    (byte_len input - pos) * (suc (suc a.top) * suc (suc a.size_bound)) + n * suc (suc a.size_bound)

-- input consumed pays for a call at any rank
pub allowance_consumed :
    (a : Analysis) (input : Str) (pos pos' n : ℕ)
    → pos < pos'
    → pos' ≤ byte_len input
    → allowance a input pos' a.top + 2 ≤ allowance a input pos n
allowance_consumed a input pos pos' n h h' =
    let d = pos' - suc pos in
    let e : byte_len input - pos ≡ (byte_len input - pos') + suc d = omega arith in
    omega (arith, ap (λ (t : ℕ). t * (suc (suc a.top) * suc (suc a.size_bound))) e)

pub allowance_kept :
    (a : Analysis) (input : Str) (pos pos' n : ℕ)
    → pos ≤ pos'
    → allowance a input pos' n ≤ allowance a input pos n
allowance_kept a input pos pos' n h =
    let d = pos' - pos in
    let e : byte_len input - pos
        ≡ (byte_len input - pos') + (byte_len input - pos - (byte_len input - pos')) =
      omega arith in
    omega (arith, ap (λ (t : ℕ). t * (suc (suc a.top) * suc (suc a.size_bound))) e)

pub allowance_lower :
    (a : Analysis) (input : Str) (pos m n : ℕ)
    → m < n
    → allowance a input pos m + suc (suc a.size_bound) ≤ allowance a input pos n
allowance_lower a input pos m n h =
    let e : n ≡ suc m + (n - suc m) = omega arith in
    omega (arith, ap (λ (t : ℕ). t * suc (suc a.size_bound)) e)

pub Advances-weaken :
    (input : Str) (b b' : Bool) (pos : ℕ) (r : ParseResult)
    → (b' ≡ true → b ≡ true)
    → Advances input b pos r
    → Advances input b' pos r
Advances-weaken input b b' pos (ok new_pos) h (le, at, strict) = (le, at, λ e. strict (h e))
Advances-weaken input b b' pos (err e) h m = tt

pub Advances-trans :
    (input : Str) (b b' : Bool) (pos new_pos : ℕ) (r : ParseResult)
    → pos ≤ new_pos
    → (b ≡ true → pos < new_pos)
    → Advances input b' new_pos r
    → Advances input (b || b') pos r
Advances-trans input true b' pos new_pos (ok stop) le s (le', at, s') =
    (omega arith, at, λ e. omega (arith, s refl))
Advances-trans input false b' pos new_pos (ok stop) le s (le', at, s') =
    (omega arith, at, λ e. omega (arith, s' e))
Advances-trans input b b' pos new_pos (err e) le s m = tt

pub or-true : (a b : Bool) → a ≡ false → (a || b) ≡ true → b ≡ true
or-true true b e h = absurd (false≢true (sym e))
or-true false b e h = h

pub has_rule-some :
    (g : Grammar) (id : String)
    → has_rule id g ≡ true
    → (rule : Rule) × (find_rule id g ≡ some rule)
has_rule-some g id h = elim (Option-cases (find_rule id g)) [
  | inl n ↦ absurd (false≢true (rw (n, has_rule) at h))
  | inr found ↦ found
]

pub Ends→sum :
    {P : ParseResult → ParseState → Type 0} {o : Outcome}
    → Ends P o
    → ((r : ParseResult) × (st : ParseState) × (o ≡ done r st) × P r st) ⊎ (o ≡ fault overflow)
Ends→sum (returns h) = inl (_, _, refl, h)
Ends→sum overflows = inr refl
