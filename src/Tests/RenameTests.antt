-- ===== src/Tests/RenameTests.antt =====
-- Inputs of test/rename.cpp, and the theorem on `rename` at one of them.
use lambcalc_cpp.Base.{◌≡◌, refl, some, [], bytes, pos, Str, str_eq, numbered}
use lambcalc_cpp.Ast
use lambcalc_cpp.VarSet.{contains}
use lambcalc_cpp.Rename.{rename, perform, renamed, not_in_scope, empty}
use lambcalc_cpp.Rename.Recursive.{rename_from}
use lambcalc_cpp.Rename.Scope.{outline, rename-renamed, rename-not_in_scope}
use lambcalc_cpp.Lexer.{is_digit}
use lambcalc_cpp.Rename.Binding.{nameless, rename-nameless}
use lambcalc_cpp.Rename.Distinct.{HasDistinctParams, rename-HasDistinctParams}
use lambcalc_cpp.Rename.Correct.{outcome, rename-eq-rename_from}

-- fn b => b + 1, with the parameter that is given.
abbrev increment : Ast.Exp → Ast.Exp
increment (Ast.var_exp x) =
    Ast.lam_exp x (Ast.bop_exp Ast.plus (Ast.var_exp x) (Ast.int_exp (pos 1)))
increment e = e

abbrev simple : Ast.Exp → Ast.Exp → Ast.Exp → Ast.Exp
simple (Ast.var_exp a) b c =
    Ast.app_exp
      (Ast.lam_exp a (
        Ast.bop_exp Ast.plus (Ast.app_exp (increment b) (Ast.int_exp (pos 1)))
          (Ast.app_exp (increment c) (Ast.int_exp (pos 2)))))
      (Ast.int_exp (pos 3))
simple e b c = e

abbrev named_a : Ast.Exp
named_a = Ast.var_exp (bytes "a")

abbrev named_b : Ast.Exp
named_b = Ast.var_exp (bytes "b")

-- `AlphaRename.Simple`.
rename_simple :
    rename (simple named_a named_b named_b)
    ≡ some (
        renamed
          (simple (Ast.var_exp (bytes "a0")) (Ast.var_exp (bytes "b2")) (Ast.var_exp (bytes "b1"))))
unfolding rename perform str_eq numbered Ast.Links.get Ast.Links.set
rename_simple = refl

-- (fn a => (a + (fn a => a + 1) 1) + a) 2
abbrev restoring : Ast.Exp → Ast.Exp → Ast.Exp
restoring (Ast.var_exp a) b =
    Ast.app_exp
      (Ast.lam_exp a (
        Ast.bop_exp Ast.plus
          (Ast.bop_exp Ast.plus (Ast.var_exp a) (Ast.app_exp (increment b) (Ast.int_exp (pos 1))))
          (Ast.var_exp a)))
      (Ast.int_exp (pos 2))
restoring e b = e

-- `AlphaRename.RestoresBindingOnLamExit`.
rename_restoring :
    rename (restoring named_a named_a)
    ≡ some (renamed (restoring (Ast.var_exp (bytes "a0")) (Ast.var_exp (bytes "a1"))))
unfolding rename perform str_eq numbered Ast.Links.get Ast.Links.set
rename_restoring = refl

-- A name that is bound in the function only.
rename_unbound : rename (Ast.app_exp (increment named_a) named_b) ≡ some (not_in_scope (bytes "b"))
unfolding rename perform str_eq numbered Ast.Links.get Ast.Links.set
rename_unbound = refl

rename-eq-rename_from_example :
    rename (restoring named_a named_a)
    ≡ some (outcome (rename_from empty (restoring named_a named_a) 0))
rename-eq-rename_from_example = rename-eq-rename_from (restoring named_a named_a)

rename-renamed_example :
    (e : Ast.Exp) × (rename (restoring named_a named_a) ≡ some (renamed e))
    × (outline e ≡ outline (restoring named_a named_a))
unfolding contains str_eq
rename-renamed_example = rename-renamed (restoring named_a named_a) refl

rename-not_in_scope_example :
    (x : Str) × (rename (Ast.app_exp (increment named_a) named_b) ≡ some (not_in_scope x))
unfolding contains str_eq
rename-not_in_scope_example = rename-not_in_scope (Ast.app_exp (increment named_a) named_b) refl

rename-nameless_example :
    (e : Ast.Exp) × (rename (restoring named_a named_a) ≡ some (renamed e))
    × (nameless [] e ≡ nameless [] (restoring named_a named_a))
unfolding contains str_eq is_digit
rename-nameless_example = rename-nameless (restoring named_a named_a) refl refl

rename-HasDistinctParams_example :
    (e : Ast.Exp) × (rename (restoring named_a named_a) ≡ some (renamed e)) × HasDistinctParams e
unfolding contains str_eq is_digit
rename-HasDistinctParams_example = rename-HasDistinctParams (restoring named_a named_a) refl refl
