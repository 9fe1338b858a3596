-- ===== src/Closure/Conversion/Recursive.antt =====
-- src/convert.cpp, `closureConvert`: the conversion as a recursion that returns the new expression
-- and the counter, in the order in which the worklist treats the tree.
use lambcalc_cpp.Base.{ℕ, suc, ◌+◌, List, [], ◌∷◌, bytes, numbered}
use lambcalc_cpp.Anf
use lambcalc_cpp.Anf.{Var, var_value, glob_value}
use lambcalc_cpp.Closure.FreeVars.Recursive.{collect}
use lambcalc_cpp.Closure.Conversion.{closure_fun}

-- The free variables of a function expression, that of `rest` included.
abbrev pub captured : Var → List Var → Anf.Exp → Anf.Exp → List Var
captured name params body rest = collect (Anf.fun_exp name params body rest) []

unfoldable pub converted : Anf.Exp → ℕ → Anf.Exp × ℕ
converted (Anf.fun_exp name params body rest) n =
    let (rest', n₁) = converted rest (n + 1) in
    let (body', n₂) = converted body n₁ in
    (
      closure_fun (captured name params body rest) (numbered (bytes "closure") n) name params body'
          rest',
      n₂,
    )
converted (Anf.app_exp name fun_name param_values rest) n =
    let proj_name = numbered (bytes "proj") n in
    let (rest', n₁) = converted rest (n + 1) in
    (
      Anf.proj_exp proj_name fun_name 0
          (Anf.app_exp name proj_name (var_value fun_name ∷ param_values) rest'),
      n₁,
    )
converted (Anf.join_exp name slot body rest) n =
    let (rest', n₁) = converted rest n in
    let (body', n₂) = converted body n₁ in (Anf.join_exp name slot body' rest', n₂)
converted (Anf.if_exp cond then_branch else_branch) n =
    let (else', n₁) = converted else_branch n in
    let (then', n₂) = converted then_branch n₁ in (Anf.if_exp cond then' else', n₂)
converted (Anf.bop_exp name bop param1 param2 rest) n =
    let (rest', n₁) = converted rest n in (Anf.bop_exp name bop param1 param2 rest', n₁)
converted (Anf.tuple_exp name values rest) n =
    let (rest', n₁) = converted rest n in (Anf.tuple_exp name values rest', n₁)
converted (Anf.proj_exp name tuple index rest) n =
    let (rest', n₁) = converted rest n in (Anf.proj_exp name tuple index rest', n₁)
converted (Anf.halt_exp value) n = (Anf.halt_exp value, n)
converted (Anf.jump_exp join_name slot_value) n = (Anf.jump_exp join_name slot_value, n)

-- A round for each projection, and then `f`.
abbrev pub projection_rounds : List Var → ℕ → ℕ
projection_rounds [] f = f
projection_rounds (x ∷ xs) f = projection_rounds xs (suc f)

-- The rounds for the tasks that a visit of the expression pushes, and `f` more.
abbrev pub rounds : Anf.Exp → ℕ → ℕ
rounds (Anf.fun_exp name params body rest) f =
    suc
      (suc (rounds rest (suc (projection_rounds (captured name params body rest) (rounds body f)))))
rounds (Anf.app_exp name fun_name param_values rest) f = suc (rounds rest (suc f))
rounds (Anf.join_exp name slot body rest) f = suc (rounds rest (suc (rounds body f)))
rounds (Anf.if_exp cond then_branch else_branch) f =
    suc (rounds else_branch (suc (rounds then_branch f)))
rounds (Anf.bop_exp name bop param1 param2 rest) f = suc (rounds rest f)
rounds (Anf.tuple_exp name values rest) f = suc (rounds rest f)
rounds (Anf.proj_exp name tuple index rest) f = suc (rounds rest f)
rounds (Anf.halt_exp value) f = f
rounds (Anf.jump_exp join_name slot_value) f = f
