-- ===== src/Tests/CompileTests.antt =====
-- The theorems on the passes together, at small programs.
use lambcalc_cpp.Base.{◌+◌, ◌≡◌, refl, some, List, Str, bytes, pos, str_eq, ◌∷◌, numbered, []}
use lambcalc_cpp.Ast
use lambcalc_cpp.Anf
use lambcalc_cpp.Anf.{int_value, var_value}
use lambcalc_cpp.Anf.Monad.{done, fresh_name}
use lambcalc_cpp.Anf.Defunc
use lambcalc_cpp.Anf.Defunc.{convert_defunc}
use lambcalc_cpp.Rename
use lambcalc_cpp.Rename.{rename, renamed}
use lambcalc_cpp.VarSet.{contains}
use lambcalc_cpp.Anf.Success.{calls_no_literal, names_drawn}
use lambcalc_cpp.Hoist.{Function}
use lambcalc_cpp.Hoist.Blocks.{AreComplete}
use lambcalc_cpp.Compile.{compile, compiled, uncaught}
use lambcalc_cpp.Compile.Correct.{compile-AreComplete, compile-uncaught}

-- (fn x => if x then x else x + 1) 2
abbrev branching : Ast.Exp
branching =
    Ast.app_exp
      (Ast.lam_exp (bytes "x") (
        Ast.if_exp (Ast.var_exp (bytes "x")) (Ast.var_exp (bytes "x"))
          (Ast.bop_exp Ast.plus (Ast.var_exp (bytes "x")) (Ast.int_exp (pos 1)))))
      (Ast.int_exp (pos 2))

compile-AreComplete_example :
    (fs : List Function) × (compile branching 7 ≡ some (compiled fs (7 + names_drawn branching)))
    × AreComplete fs
unfolding contains str_eq calls_no_literal
compile-AreComplete_example = compile-AreComplete branching 7 refl refl

-- 1 2
abbrev literal_call : Ast.Exp
literal_call = Ast.app_exp (Ast.int_exp (pos 1)) (Ast.int_exp (pos 2))

compile-uncaught_example : (msg : Str) × (compile literal_call 0 ≡ some (uncaught msg))
unfolding calls_no_literal
compile-uncaught_example = compile-uncaught literal_call 0 refl refl

-- fn tmp => (1 + 2) + tmp, renamed: the conversion binds the name of the parameter a second time, so
-- that the sum is added to itself.
abbrev sum_and_tmp : Str → Ast.Exp
sum_and_tmp x = Ast.lam_exp x (
    Ast.bop_exp Ast.plus (Ast.bop_exp Ast.plus (Ast.int_exp (pos 1)) (Ast.int_exp (pos 2)))
      (Ast.var_exp x))

rename-sum_and_tmp :
    rename (sum_and_tmp (bytes "tmp")) ≡ some (renamed (sum_and_tmp (bytes "tmp0")))
unfolding rename Rename.perform str_eq numbered Ast.Links.get Ast.Links.set
rename-sum_and_tmp = refl

convert_defunc-sum_and_tmp :
    convert_defunc (sum_and_tmp (bytes "tmp0")) 0
    ≡ some (
        done
          (Anf.fun_exp
            (bytes "tmp2")
            (bytes "tmp0" ∷ [])
            (Anf.bop_exp (bytes "tmp0") Ast.plus (int_value (pos 1)) (int_value (pos 2)) (
              Anf.bop_exp
                (bytes "tmp1")
                Ast.plus
                (var_value (bytes "tmp0"))
                (var_value (bytes "tmp0"))
                (Anf.halt_exp (var_value (bytes "tmp1")))))
            (Anf.halt_exp (var_value (bytes "tmp2"))))
          3)
unfolding convert_defunc Defunc.step fresh_name
convert_defunc-sum_and_tmp = refl

-- Functions of these parameters around an expression.
abbrev functions : List Str → Ast.Exp → Ast.Exp
functions [] e = e
functions (x ∷ xs) e = Ast.lam_exp x (functions xs e)

abbrev letters : List Str
letters =
    bytes "b"
    ∷ bytes "c"
    ∷ bytes "d"
    ∷ bytes "e"
    ∷ bytes "f"
    ∷ bytes "g"
    ∷ bytes "h"
    ∷ bytes "i"
    ∷ bytes "j"
    ∷ bytes "a"
    ∷ []

abbrev numbered_letters : List Str
numbered_letters =
    bytes "b1"
    ∷ bytes "c2"
    ∷ bytes "d3"
    ∷ bytes "e4"
    ∷ bytes "f5"
    ∷ bytes "g6"
    ∷ bytes "h7"
    ∷ bytes "i8"
    ∷ bytes "j9"
    ∷ bytes "a10"
    ∷ []

-- The parameters `a1` and `a` get the same name, so that the variable of the outer one is captured.
rename-captured :
    rename (functions (bytes "a1" ∷ letters) (Ast.var_exp (bytes "a1")))
    ≡ some (renamed (functions (bytes "a10" ∷ numbered_letters) (Ast.var_exp (bytes "a10"))))
unfolding rename Rename.perform str_eq numbered Ast.Links.get Ast.Links.set
rename-captured = refl
