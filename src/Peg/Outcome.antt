-- ===== src/Peg/Outcome.antt =====
-- What a call of a generated parser comes to: a result and the state, or a fault.

use endb.Prelude.{Option, none, some}
use endb.Cst.Event.{ParseState, ParseResult}

-- `panic`: a failed `unwrap` or slice; `overflow`: the `unwrap` of the number of events as a `u32`;
-- `undefined`: a rule that the grammar lacks, which rustc
-- refuses; `fuel`: the bound of the model ran out.
pub data Fault : Type 0 where
  panic overflow undefined fuel : Fault

pub data Outcome : Type 0 where
  done : ParseResult → ParseState → Outcome
  fault : Fault → Outcome

abbrev pub follow : Outcome → (ParseResult → ParseState → Outcome) → Outcome
follow (done r st) k = k r st
follow (fault x) k = fault x

-- go on with a value, or fault
abbrev pub or_fault {ℓ} : {A : Type ℓ} → Fault → Option A → (A → Outcome) → Outcome
or_fault x none k = fault x
or_fault x (some a) k = k a
