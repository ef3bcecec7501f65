-- ===== src/Base/Float.antt =====
-- Go's float64 as an interface: the operations that the program uses. No law is assumed here; a
-- theorem that needs one takes it as a hypothesis.
use mathlib.Core.Bool.{Bool}
use go_sentinel.Base.Int.{ℤ}

pub record Float64 : Type 1 where
  pub F : Type 0
  -- float64(n)
  pub of_int : ℤ → F
  pub add : F → F → F
  pub sub : F → F → F
  pub mul : F → F → F
  pub div : F → F → F
  -- x > y
  pub gtb : F → F → Bool
  -- int32(x)
  pub to_int32 : F → ℤ
