-- ===== src/Tests/ConversionTests.antt =====
-- The input of the `ClosureConvert.Nested` test of test/convert.cpp, and the theorems on
-- `closureConvert` at it.
use lambcalc_cpp.Base.{
  ◌≡◌, refl, suc, some, [], ◌∷◌, bytes, pos, str_eq, str_eq_iff, numbered, arith,
}
use lambcalc_cpp.Ast
use lambcalc_cpp.Anf
use lambcalc_cpp.Anf.{int_value, var_value, glob_value}
use lambcalc_cpp.VarSet.{contains, insert, erase, str_compare}
use lambcalc_cpp.Closure.FreeVars.{free_vars}
use lambcalc_cpp.Closure.FreeVars.Meaning.{is_free, binds, occurs, occurs_any, IsClean}
use lambcalc_cpp.Closure.Conversion.{closure_convert, perform}
use lambcalc_cpp.Closure.Conversion.Recursive.{rounds, converted}
use lambcalc_cpp.Closure.Conversion.Correct.{closure_convert-eq-converted}
use lambcalc_cpp.Closure.Conversion.Closed.{HasClosedFunctions, closure_convert-HasClosedFunctions}

-- fun f1 [a] = fun f2 [b] = let r = a + b in r; f2; let t1 = f1 1 in let t2 = t1 2 in t2
abbrev nested : Anf.Exp
nested =
    Anf.fun_exp (bytes "f1") (bytes "a" ∷ [])
      (Anf.fun_exp (bytes "f2") (bytes "b" ∷ [])
        (Anf.bop_exp (bytes "r") Ast.plus (var_value (bytes "a")) (var_value (bytes "b"))
          (Anf.halt_exp (var_value (bytes "r"))))
        (Anf.halt_exp (var_value (bytes "f2"))))
      (Anf.app_exp (bytes "t1") (bytes "f1") (int_value (pos 1) ∷ []) (
        Anf.app_exp (bytes "t2") (bytes "t1") (int_value (pos 2) ∷ [])
          (Anf.halt_exp (var_value (bytes "t2")))))

abbrev nested_converted : Anf.Exp
nested_converted =
    Anf.fun_exp (bytes "f1") (bytes "closure0" ∷ bytes "a" ∷ [])
      (Anf.fun_exp (bytes "f2") (bytes "closure3" ∷ bytes "b" ∷ [])
        (Anf.proj_exp (bytes "a") (bytes "closure3") 1 (
          Anf.bop_exp (bytes "r") Ast.plus (var_value (bytes "a")) (var_value (bytes "b"))
            (Anf.halt_exp (var_value (bytes "r")))))
        (Anf.tuple_exp (bytes "f2") (glob_value (bytes "f2") ∷ var_value (bytes "a") ∷ [])
          (Anf.halt_exp (var_value (bytes "f2")))))
      (Anf.tuple_exp (bytes "f1") (glob_value (bytes "f1") ∷ []) (
        Anf.proj_exp (bytes "proj1") (bytes "f1") 0 (
          Anf.app_exp (bytes "t1") (bytes "proj1") (var_value (bytes "f1") ∷ int_value (pos 1) ∷ [])
            (Anf.proj_exp (bytes "proj2") (bytes "t1") 0 (
              Anf.app_exp (bytes "t2") (bytes "proj2")
                (var_value (bytes "t1") ∷ int_value (pos 2) ∷ [])
                (Anf.halt_exp (var_value (bytes "t2"))))))))

convert_nested : closure_convert 20 nested ≡ some nested_converted
unfolding closure_convert perform free_vars insert erase str_compare str_eq numbered Anf.Links.get
    Anf.Links.set
convert_nested = refl

nested-IsClean : IsClean nested
unfolding is_free binds occurs occurs_any contains
nested-IsClean = (
  (λ x b. ground (
    arith,
    str_eq_iff x (bytes "f1"),
    str_eq_iff x (bytes "a"),
    str_eq_iff x (bytes "f2"),
    str_eq_iff x (bytes "b"),
    str_eq_iff x (bytes "r"),
    str_eq_iff x (bytes "t1"),
    str_eq_iff x (bytes "t2"),
  )),
  (
    (λ x b. ground (
      arith,
      str_eq_iff x (bytes "a"),
      str_eq_iff x (bytes "f2"),
      str_eq_iff x (bytes "b"),
      str_eq_iff x (bytes "r"),
    )),
    (
      (λ x b.
          ground
            (arith, str_eq_iff x (bytes "a"), str_eq_iff x (bytes "b"), str_eq_iff x (bytes "r"))),
      tt,
    ),
    tt,
  ),
  (
    (λ x b.
        ground
          (arith, str_eq_iff x (bytes "f1"), str_eq_iff x (bytes "t1"), str_eq_iff x (bytes "t2"))),
    ((λ x b. ground (arith, str_eq_iff x (bytes "t1"), str_eq_iff x (bytes "t2"))), tt),
  ),
)

closure_convert-HasClosedFunctions_example :
    (e : Anf.Exp) × (closure_convert (suc (rounds nested 3)) nested ≡ some e) × HasClosedFunctions e
closure_convert-HasClosedFunctions_example =
    closure_convert-HasClosedFunctions nested 3 nested-IsClean

closure_convert-eq-converted_example :
    closure_convert (suc (rounds nested 0)) nested ≡ some (converted nested 0).0
closure_convert-eq-converted_example = closure_convert-eq-converted nested 0
