-- ===== src/Base/Text.antt =====
-- `std::string` as the list of its bytes, its equality, and `std::to_string`.
use Prim.Native.Nat.{ℕ, zero, suc, ◌+◌, ◌/◌, ◌%◌}
use Prim.Native.Char.{code}
use Prim.Native.String.{String}
use mathlib.Core.Path.{◌≡◌, refl}
use mathlib.Core.Bool.{Bool, true, false, ◌&&◌}
use mathlib.Core.List.{List, [], ◌∷◌, ◌++◌}
use native.Mathlib.Omega.{arith}
use lambcalc_cpp.Base.Tests.{ltb, ◌==◌, if◌then◌else◌}
use mathlib.Core.Logic.{◌↔◌}

abbrev pub Str : Type 0
Str = List ℕ

-- The bytes of an ASCII literal.
abbrev pub bytes : String → Str
bytes String.[] = []
bytes (String.◌∷◌ c s) = code c ∷ bytes s

unfoldable pub str_eq : Str → Str → Bool
str_eq [] [] = true
str_eq (x ∷ s) (y ∷ t) = x == y && str_eq s t
str_eq _ _ = false

-- `std::to_string` of a non-negative number: the decimal digits, the most significant first.
unfoldable pub digits : ℕ → ℕ → Str
digits zero n = []
digits (suc f) n =
    let rest = digits f (n / 10) in if ltb n 10 then (48 + n) ∷ [] else rest ++ (48 + n % 10) ∷ []

unfoldable pub to_string : ℕ → Str
unfolding digits
to_string n = digits (suc n) n

-- `prefix.data() + std::to_string(n)`.
unfoldable pub numbered : Str → ℕ → Str
unfolding to_string
numbered prefix n = prefix ++ to_string n

to_string_runs : to_string 1203 ≡ bytes "1203"
unfolding to_string
to_string_runs = refl

pub str_eq_iff : (s t : Str) → (str_eq s t ≡ true) ↔ (s ≡ t)
unfolding str_eq
str_eq_iff [] [] = (λ _. refl, λ _. refl)
str_eq_iff [] (y ∷ t) = (λ h. cc, λ h. cc)
str_eq_iff (x ∷ s) [] = (λ h. cc, λ h. cc)
str_eq_iff (x ∷ s) (y ∷ t) =
    (λ h. ground (arith, (str_eq_iff s t).0), λ h. ground (arith, (str_eq_iff s t).1))

pub str_eq_refl : (s : Str) → str_eq s s ≡ true
str_eq_refl s = (str_eq_iff s s).1 refl
