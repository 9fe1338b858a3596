-- ===== src/Tests/DestructorTests.antt =====
-- The destructors at small trees, and the theorems on them.
use mathlib.Core.List.{Perm}
use lambcalc_cpp.Base.{◌≡◌, refl, some, none, List, [], ◌∷◌, bytes, pos}
use lambcalc_cpp.Ast
use lambcalc_cpp.Anf
use lambcalc_cpp.Anf.{int_value, var_value}
use lambcalc_cpp.Destructor.{destroy, destroy_ast, destroy_anf, ast_below, anf_below}
use lambcalc_cpp.Destructor.Complete.{destroy_ast-Perm, destroy_anf-Perm}

-- (fn x => x) (1 + 2)
abbrev identity : Ast.Exp
identity = Ast.lam_exp (bytes "x") (Ast.var_exp (bytes "x"))

abbrev sum : Ast.Exp
sum = Ast.bop_exp Ast.plus (Ast.int_exp (pos 1)) (Ast.int_exp (pos 2))

-- The children of a node are freed before what is below them.
destroy-order :
    destroy_ast (Ast.app_exp identity sum)
    ≡ some
        (identity ∷ sum ∷ Ast.var_exp (bytes "x") ∷ Ast.int_exp (pos 1) ∷ Ast.int_exp (pos 2) ∷ [])
unfolding destroy
destroy-order = refl

destroy_ast-Perm_example :
    (freed : List Ast.Exp) × (destroy_ast (Ast.app_exp identity sum) ≡ some freed)
    × Perm freed (ast_below (Ast.app_exp identity sum))
destroy_ast-Perm_example = destroy_ast-Perm (Ast.app_exp identity sum)

abbrev constant : Anf.Exp
constant =
    Anf.fun_exp (bytes "f") (bytes "x" ∷ [])
      (Anf.tuple_exp (bytes "t") (int_value (pos 1) ∷ []) (Anf.halt_exp (var_value (bytes "t"))))
      (Anf.jump_exp (bytes "j") none)

destroy_anf-Perm_example :
    (freed : List Anf.Exp) × (destroy_anf constant ≡ some freed) × Perm freed (anf_below constant)
destroy_anf-Perm_example = destroy_anf-Perm constant
