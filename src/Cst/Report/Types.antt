-- ===== src/Cst/Report/Types.antt =====
-- lib/endb_cst/src/lib.rs: the types of a report.
use endb.Prelude.{ℕ, Bool, true, false, ◌&&◌, Option, none, some, List, [], ◌∷◌, ◌==◌}
use endb.Prelude.Text.{Str}

pub data ParseReportKind : Type 0 where
  error warning advice : ParseReportKind

pub data ParseReportColor : Type 0 where
  unset default black red green yellow blue magenta cyan white : ParseReportColor

-- `span` is the file name and `start..stop`; an `i32` is its bits
pub record ParseReportLabel : Type 0 where
  pub filename : Str
  pub start : ℕ
  pub stop : ℕ
  pub msg : Option Str
  pub color : Option ParseReportColor
  pub order : ℕ
  pub priority : ℕ

pub record ParseReport : Type 0 where
  pub kind : ParseReportKind
  pub code : Option Str
  pub msg : Option Str
  pub note : Option Str
  pub help : Option Str
  pub location : Str × ℕ
  pub labels : List ParseReportLabel
  pub source : Str

-- `==` of two strings
abbrev pub text_eq : Str → Str → Bool
text_eq [] [] = true
text_eq [] (d ∷ t) = false
text_eq (c ∷ s) [] = false
text_eq (c ∷ s) (d ∷ t) = (c == d) && text_eq s t

abbrev color_code : ParseReportColor → ℕ
color_code unset = 0
color_code default = 1
color_code black = 2
color_code red = 3
color_code green = 4
color_code yellow = 5
color_code blue = 6
color_code magenta = 7
color_code cyan = 8
color_code white = 9

abbrev option_eq {ℓ} : {A : Type ℓ} → (A → A → Bool) → Option A → Option A → Bool
option_eq eq none none = true
option_eq eq none (some b) = false
option_eq eq (some a) none = false
option_eq eq (some a) (some b) = eq a b

-- the derived `PartialEq` of `ParseReportLabel`
unfoldable pub label_eq : ParseReportLabel → ParseReportLabel → Bool
label_eq a b =
    text_eq a.filename b.filename
    && ((a.start == b.start)
        && ((a.stop == b.stop)
            && (option_eq text_eq a.msg b.msg
                && (option_eq (λ c d. color_code c == color_code d) a.color b.color
                    && ((a.order == b.order) && (a.priority == b.priority))))))

abbrev pub list_eq {ℓ} : {A : Type ℓ} → (A → A → Bool) → List A → List A → Bool
list_eq eq [] [] = true
list_eq eq [] (y ∷ ys) = false
list_eq eq (x ∷ xs) [] = false
list_eq eq (x ∷ xs) (y ∷ ys) = eq x y && list_eq eq xs ys
