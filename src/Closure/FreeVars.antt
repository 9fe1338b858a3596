-- ===== src/Closure/FreeVars.antt =====
-- src/convert.cpp, `freeVars`, with the parts of include/visitor.h that it is built from: the
-- worklist of `WorklistVisitor` and the values met by `ExpValueVisitor`. The worklist is a
-- `std::stack`: a list, last pushed first. A task that erases names holds a reference to names of
-- the tree, which the pass does not change, so the task holds the names.
pub mod Recursive
pub mod Meaning
pub mod Correct
pub mod Unshadowed
use lambcalc_cpp.Base.{ℕ, zero, suc, Option, none, some, List, [], ◌∷◌}
use lambcalc_cpp.Anf
use lambcalc_cpp.Anf.{Var, Value, int_value, var_value, glob_value}
use lambcalc_cpp.VarSet.{insert, erase}

-- `WorklistTask`: a node, or one of the two functions that `addWorklist` pushes.
pub data Task : Type 0 where
  node : Anf.Exp → Task
  erase_name : Var → Task
  erase_names : List Var → Task

pub record State : Type 0 where
  pub worklist : List Task
  pub free_vars : List Var

-- `visitValue`, with `visitVarValue` and `visitGlobValue`.
abbrev pub visit_value : Value → List Var → List Var
visit_value (int_value i) s = s
visit_value (var_value x) s = insert x s
visit_value (glob_value g) s = insert g s

abbrev pub visit_values : List Value → List Var → List Var
visit_values [] s = s
visit_values (v ∷ vs) s = visit_values vs (visit_value v s)

abbrev pub visit_slot : Option Value → List Var → List Var
visit_slot none s = s
visit_slot (some v) s = visit_value v s

abbrev pub erase_all : List Var → List Var → List Var
erase_all [] s = s
erase_all (x ∷ xs) s = erase_all xs (erase x s)

-- `addWorklist(name, link)` and `addWorklist(names, link)`: the node is pushed last.
abbrev pub add_named : Var → Anf.Exp → List Task → List Task
add_named name e w = node e ∷ erase_name name ∷ w

abbrev pub add_params : List Var → Anf.Exp → List Task → List Task
add_params names e w = node e ∷ erase_names names ∷ w

abbrev pub add_slot : Option Var → Anf.Exp → List Task → List Task
add_slot none e w = node e ∷ w
add_slot (some x) e w = add_named x e w

-- `operator()` at each expression: its values, then the tasks for its parts.
unfoldable pub visit : Anf.Exp → State → State
visit (Anf.halt_exp v) s = record s { free_vars = visit_value v s.free_vars }
visit (Anf.fun_exp name params body rest) s = record s {
  worklist = add_named name rest (add_params params body s.worklist);
}
visit (Anf.join_exp name slot body rest) s = record s {
  worklist = add_named name rest (add_slot slot body s.worklist);
}
visit (Anf.jump_exp join_name slot_value) s = record s {
  free_vars = visit_slot slot_value s.free_vars;
}
visit (Anf.app_exp name fun_name param_values rest) s = record s {
  free_vars = visit_values param_values (visit_value (var_value fun_name) s.free_vars);
  worklist = add_named name rest s.worklist;
}
visit (Anf.bop_exp name bop param1 param2 rest) s = record s {
  free_vars = visit_value param2 (visit_value param1 s.free_vars);
  worklist = add_named name rest s.worklist;
}
visit (Anf.if_exp cond then_branch else_branch) s = record s {
  free_vars = visit_value cond s.free_vars;
  worklist = node else_branch ∷ node then_branch ∷ s.worklist;
}
visit (Anf.tuple_exp name values rest) s = record s {
  free_vars = visit_values values s.free_vars;
  worklist = add_named name rest s.worklist;
}
visit (Anf.proj_exp name tuple index rest) s = record s {
  free_vars = visit_value (var_value tuple) s.free_vars;
  worklist = add_named name rest s.worklist;
}

-- A task that was popped.
unfoldable pub perform : Task → State → State
unfolding visit
perform (node e) s = visit e s
perform (erase_name x) s = record s { free_vars = erase x s.free_vars }
perform (erase_names xs) s = record s { free_vars = erase_all xs s.free_vars }

-- `while (!worklist.empty())`, for at most `fuel` rounds.
unfoldable pub run : ℕ → List Task → List Var → Option (List Var)
unfolding perform
run fuel [] s = some s
run zero (t ∷ w) s = none
run (suc fuel) (t ∷ w) s =
    let s' = perform t (record { worklist = w; free_vars = s }) in run fuel s'.worklist s'.free_vars

abbrev pub slot_rounds : Option Var → ℕ → ℕ
slot_rounds none f = f
slot_rounds (some x) f = suc f

-- The rounds for the tasks that a visit of the expression pushes, and `f` more.
abbrev pub rounds : Anf.Exp → ℕ → ℕ
rounds (Anf.halt_exp v) f = f
rounds (Anf.fun_exp name params body rest) f = suc (rounds rest (suc (suc (rounds body (suc f)))))
rounds (Anf.join_exp name slot body rest) f =
    suc (rounds rest (suc (suc (rounds body (slot_rounds slot f)))))
rounds (Anf.jump_exp join_name slot_value) f = f
rounds (Anf.app_exp name fun_name param_values rest) f = suc (rounds rest (suc f))
rounds (Anf.bop_exp name bop param1 param2 rest) f = suc (rounds rest (suc f))
rounds (Anf.if_exp cond then_branch else_branch) f =
    suc (rounds else_branch (suc (rounds then_branch f)))
rounds (Anf.tuple_exp name values rest) f = suc (rounds rest (suc f))
rounds (Anf.proj_exp name tuple index rest) f = suc (rounds rest (suc f))

-- `freeVars(root)`, with enough rounds.
unfoldable pub free_vars : Anf.Exp → Option (List Var)
unfolding run visit
free_vars root =
    let s = visit root (record { worklist = []; free_vars = [] }) in
    run (rounds root 0) s.worklist s.free_vars
