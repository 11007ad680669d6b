-- ===== src/Value.antt =====
-- Go values of type `any`, as statement arguments and scanned row values hold them, and the signed
-- integers of LIMIT and OFFSET.
use tiqq.Prelude.{ℕ, Bool, true, false, List, Text}

-- `negsuc n` is -(n + 1).
pub data ℤ : Type 0 where
  pos : ℕ → ℤ
  negsuc : ℕ → ℤ

abbrev pub is_negative : ℤ → Bool
is_negative (pos n) = false
is_negative (negsuc n) = true

-- The dynamic types that the source names in a type switch have a constructor each. `other` is a
-- value of any other type: a type's number and the value's.
pub data Value : Type 0 where
  null : Value
  int64 : ℤ → Value
  string : Text → Value
  byte_slice : List ℕ → Value
  byte_array16 : List ℕ → Value
  uuid : List ℕ → Value
  json : List ℕ → Value
  decimal_value : Text → Value
  other : ℕ → ℕ → Value
