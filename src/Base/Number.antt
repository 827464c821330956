-- ===== src/Base/Number.antt =====
-- Python's numbers as data: an int, and a float by the 64 bits of its double.
use agentic_coding_stack.Prelude.{ℕ}

-- `negsuc n` is -(n + 1).
pub data ℤ : Type 0 where
  pos : ℕ → ℤ
  negsuc : ℕ → ℤ

pub record Float : Type 0 where
  pub bits : ℕ

abbrev pub zero_float : Float
zero_float = record { bits = 0 }
