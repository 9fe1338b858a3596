-- ===== src/Closure/FreeVars/Recursive.antt =====
-- src/convert.cpp, `freeVars`: the order in which the worklist treats a tree, as a recursion.
use lambcalc_cpp.Base.{ℕ, suc, ◌≡◌, refl, ◌∙◌, Option, none, some, List, [], ◌∷◌}
use lambcalc_cpp.Anf
use lambcalc_cpp.Anf.{Var, var_value}
use lambcalc_cpp.VarSet.{erase}
use lambcalc_cpp.Closure.FreeVars.{
  Task, node, run, rounds, free_vars, visit_value, visit_values, visit_slot, erase_all,
}

abbrev pub erase_slot : Option Var → List Var → List Var
erase_slot none s = s
erase_slot (some x) s = erase x s

-- The set after the expression was treated, from the set before.
unfoldable pub collect : Anf.Exp → List Var → List Var
collect (Anf.halt_exp v) s = visit_value v s
collect (Anf.fun_exp name params body rest) s =
    erase_all params (collect body (erase name (collect rest s)))
collect (Anf.join_exp name slot body rest) s =
    erase_slot slot (collect body (erase name (collect rest s)))
collect (Anf.jump_exp join_name slot_value) s = visit_slot slot_value s
collect (Anf.app_exp name fun_name param_values rest) s =
    erase name (collect rest (visit_values param_values (visit_value (var_value fun_name) s)))
collect (Anf.bop_exp name bop param1 param2 rest) s =
    erase name (collect rest (visit_value param2 (visit_value param1 s)))
collect (Anf.if_exp cond then_branch else_branch) s =
    collect then_branch (collect else_branch (visit_value cond s))
collect (Anf.tuple_exp name values rest) s = erase name (collect rest (visit_values values s))
collect (Anf.proj_exp name tuple index rest) s =
    erase name (collect rest (visit_value (var_value tuple) s))

-- A node on the stack is treated with all that it pushes before what is below it.
run-node :
    (e : Anf.Exp) (f : ℕ) (w : List Task) (s : List Var)
    → run (suc (rounds e f)) (node e ∷ w) s ≡ run f w (collect e s)
unfolding run collect
run-node (Anf.halt_exp v) f w s = refl
run-node (Anf.fun_exp name params body rest) f w s = run-node rest _ _ s ∙ run-node body _ _ _
run-node (Anf.join_exp name none body rest) f w s = run-node rest _ _ s ∙ run-node body _ _ _
run-node (Anf.join_exp name (some x) body rest) f w s = run-node rest _ _ s ∙ run-node body _ _ _
run-node (Anf.jump_exp join_name slot_value) f w s = refl
run-node (Anf.app_exp name fun_name param_values rest) f w s = run-node rest _ _ _
run-node (Anf.bop_exp name bop param1 param2 rest) f w s = run-node rest _ _ _
run-node (Anf.if_exp cond then_branch else_branch) f w s =
    run-node else_branch _ _ _ ∙ run-node then_branch f w _
run-node (Anf.tuple_exp name values rest) f w s = run-node rest _ _ _
run-node (Anf.proj_exp name tuple index rest) f w s = run-node rest _ _ _

-- The loop of `freeVars` ends within its bound with the set that the recursion collects.
pub free_vars-eq-collect : (root : Anf.Exp) → free_vars root ≡ some (collect root [])
unfolding free_vars run collect
free_vars-eq-collect root = run-node root 0 [] []
