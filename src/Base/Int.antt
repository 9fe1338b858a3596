-- ===== src/Base/Int.antt =====
-- C++ `int`: the model of `Value` and of literals. The passes copy and print it, and do no
-- arithmetic with it.
use Prim.Native.Nat.{ℕ, suc}
use mathlib.Core.List.{◌∷◌}
use lambcalc_cpp.Base.Text.{Str, to_string}

-- `negsuc n` is -(n + 1).
pub data ℤ : Type 0 where
  pos : ℕ → ℤ
  negsuc : ℕ → ℤ

-- `std::to_string(int)` and `os << int`.
unfoldable pub int_to_string : ℤ → Str
unfolding to_string
int_to_string (pos n) = to_string n
int_to_string (negsuc n) = b'-' ∷ to_string (suc n)
