-- ===== src/Evaluation/Display.antt =====
-- How kenjutsu/evaluation/runner.py writes numbers: Python's f-strings are a parameter. A
-- float that is one quotient is kept as the fraction that it rounds, and a lift as the two that are
-- subtracted.
use Prim.Native.String.{◌++◌ as cat}
use kenjutsu.Base.{ℕ, String, Bool, true, false, List, [], ◌∷◌}
use kenjutsu.Evaluation.Metrics.{Ratio}

pub record Difference : Type 0 where
  pub minuend : Ratio
  pub subtrahend : Ratio

-- `str(n)` and `f"{n:,}"` of an int; `f"{v:.df}"` and `f"{v:.d%}"` of a float, with `d` decimals.
pub record Display : Type 0 where
  pub str : ℕ → String
  pub thousands : ℕ → String
  pub fixed : ℕ → Ratio → String
  pub percent : ℕ → Ratio → String
  pub fixed_lift : ℕ → Difference → String
  pub percent_lift : ℕ → Difference → String

-- The pieces of an f-string, or of adjacent literals, one after the other.
abbrev pub concat : List String → String
concat [] = ""
concat (s ∷ ss) = cat s (concat ss)

abbrev pub mark : Bool → String
mark passed = elim passed [ true ↦ "✅" | false ↦ "❌" ]

-- Python's arithmetic on floats, none of which is NaN: the float nearest to a fraction, which `/` of two
-- ints and a decimal literal both give; `-`; and `>`.
pub record Floats (F : Type 0) : Type 0 where
  pub quotient : ℕ → ℕ → F
  pub minus : F → F → F
  pub greater : F → F → Bool
