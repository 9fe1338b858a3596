-- ===== src/Tests/AnfTests.antt =====
-- Inputs of test/anf.cpp, and the theorems on the conversion at them.
use lambcalc_cpp.Base.{ℕ, ◌+◌, ◌≡◌, refl, some, [], ◌∷◌, Str, bytes, pos}
use lambcalc_cpp.Ast
use lambcalc_cpp.Anf
use lambcalc_cpp.Anf.{Value, int_value, var_value}
use lambcalc_cpp.Anf.Monad.{done, throws, fresh_name}
use lambcalc_cpp.Anf.Convert.{convert}
use lambcalc_cpp.Anf.Defunc.{convert_defunc}
use lambcalc_cpp.Anf.Equivalence.{Ends, convert_defunc-Agrees}
use lambcalc_cpp.Anf.Success.{
  calls_no_literal, names_drawn, convert_defunc-returns, convert_defunc-throws,
}

abbrev num : ℕ → Ast.Exp
num n = Ast.int_exp (pos n)

-- (fn x => x + 1) 1
abbrev lam_app : Ast.Exp
lam_app =
    Ast.app_exp (Ast.lam_exp (bytes "x") (Ast.bop_exp Ast.plus (Ast.var_exp (bytes "x")) (num 1)))
      (num 1)

abbrev lam_app_anf : Anf.Exp
lam_app_anf =
    Anf.fun_exp (bytes "tmp1") (bytes "x" ∷ [])
      (Anf.bop_exp (bytes "tmp0") Ast.plus (var_value (bytes "x")) (int_value (pos 1))
        (Anf.halt_exp (var_value (bytes "tmp0"))))
      (Anf.app_exp (bytes "tmp2") (bytes "tmp1") (int_value (pos 1) ∷ [])
        (Anf.halt_exp (var_value (bytes "tmp2"))))

convert-lam_app : convert lam_app 0 ≡ done lam_app_anf 3
unfolding convert fresh_name
convert-lam_app = refl

convert_defunc-lam_app : convert_defunc lam_app 0 ≡ some (done lam_app_anf 3)
unfolding convert_defunc Anf.Defunc.step fresh_name
convert_defunc-lam_app = refl

-- if (if 0 + 1 then 0 else 1) then (fn x => x + 1) 1 else 0
abbrev nested_if : Ast.Exp
nested_if =
    Ast.if_exp (Ast.if_exp (Ast.bop_exp Ast.plus (num 0) (num 1)) (num 0) (num 1)) lam_app (num 0)

convert_defunc-Agrees_example : Ends (convert_defunc nested_if 7) (convert nested_if 7)
convert_defunc-Agrees_example = convert_defunc-Agrees nested_if 7

convert_defunc-returns_example :
    (e : Anf.Exp) × (convert_defunc nested_if 7 ≡ some (done e (7 + names_drawn nested_if)))
unfolding calls_no_literal
convert_defunc-returns_example = convert_defunc-returns nested_if 7 refl

-- (1 2) + 3
convert_defunc-throws_example :
    (msg : Str) × (m : ℕ) × (convert_defunc
        (Ast.bop_exp Ast.plus (Ast.app_exp (num 1) (num 2)) (num 3))
        0
      ≡ some (throws msg m))
unfolding calls_no_literal
convert_defunc-throws_example =
    convert_defunc-throws (Ast.bop_exp Ast.plus (Ast.app_exp (num 1) (num 2)) (num 3)) 0 refl
