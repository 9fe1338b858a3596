-- ===== src/Tests/FreeVarsTests.antt =====
-- Inputs of the `FreeVars` tests of test/convert.cpp, and the theorem on `freeVars` at one.
use lambcalc_cpp.Base.{◌≡◌, refl, some, List, [], ◌∷◌, bytes, str_eq, str_eq_iff, arith}
use lambcalc_cpp.Ast
use lambcalc_cpp.Anf
use lambcalc_cpp.Anf.{Var, var_value, glob_value}
use lambcalc_cpp.VarSet.{contains, insert, erase, str_compare}
use lambcalc_cpp.Closure.FreeVars.{free_vars}
use lambcalc_cpp.Closure.FreeVars.Recursive.{collect, free_vars-eq-collect}
use lambcalc_cpp.Closure.FreeVars.Meaning.{is_free, binds, occurs, IsClean}
use lambcalc_cpp.Closure.FreeVars.Correct.{free_vars-is_free}

-- let c = a + b in c
abbrev simple : Anf.Exp
simple =
    Anf.bop_exp (bytes "c") Ast.plus (var_value (bytes "a")) (var_value (bytes "b"))
      (Anf.halt_exp (var_value (bytes "c")))

free_vars_simple : free_vars simple ≡ some (bytes "a" ∷ bytes "b" ∷ [])
unfolding free_vars insert erase str_compare str_eq
free_vars_simple = refl

abbrev fun_join : Anf.Exp
fun_join =
    Anf.fun_exp (bytes "f") (bytes "a" ∷ bytes "b" ∷ [])
      (Anf.join_exp (bytes "j") (some (bytes "c"))
        (Anf.tuple_exp (bytes "t")
          (var_value (bytes "b") ∷ var_value (bytes "c") ∷ var_value (bytes "d") ∷ [])
          (Anf.proj_exp (bytes "p") (bytes "t") 0 (Anf.halt_exp (var_value (bytes "p")))))
        (Anf.bop_exp (bytes "x") Ast.plus (var_value (bytes "a")) (var_value (bytes "e"))
          (Anf.jump_exp (bytes "j") (some (glob_value (bytes "g"))))))
      (Anf.halt_exp (var_value (bytes "f")))

free_vars_fun_join : free_vars fun_join ≡ some (bytes "d" ∷ bytes "e" ∷ bytes "g" ∷ [])
unfolding free_vars insert erase str_compare str_eq
free_vars_fun_join = refl

-- fun f [a] = let x = a + d in x; f
abbrev closed_over : Anf.Exp
closed_over =
    Anf.fun_exp (bytes "f") (bytes "a" ∷ [])
      (Anf.bop_exp (bytes "x") Ast.plus (var_value (bytes "a")) (var_value (bytes "d"))
        (Anf.halt_exp (var_value (bytes "x"))))
      (Anf.halt_exp (var_value (bytes "f")))

closed_over-IsClean : IsClean closed_over
unfolding is_free binds occurs contains
closed_over-IsClean = (
  λ x b. ground (
    arith,
    str_eq_iff x (bytes "f"),
    str_eq_iff x (bytes "a"),
    str_eq_iff x (bytes "d"),
    str_eq_iff x (bytes "x"),
  ),
  (
    λ x b.
        ground
          (arith, str_eq_iff x (bytes "a"), str_eq_iff x (bytes "d"), str_eq_iff x (bytes "x")),
    tt,
  ),
  tt,
)

free_vars-is_free_example :
    (s : List Var) × (free_vars closed_over ≡ some s)
    × ((x : Var) → contains s x ≡ is_free closed_over x)
free_vars-is_free_example = free_vars-is_free closed_over closed_over-IsClean

free_vars-eq-collect_example : free_vars fun_join ≡ some (collect fun_join [])
free_vars-eq-collect_example = free_vars-eq-collect fun_join
