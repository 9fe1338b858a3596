-- ===== src/Closure/Conversion.antt =====
-- src/convert.cpp, `closureConvert`: the visitor that rewrites the tree in place, and its loop over
-- a `std::stack` (a list, last pushed first). A node is visited through the link that owns it.
pub mod Recursive
pub mod Steps
pub mod Correct
pub mod Closed
pub mod Known
pub mod Shape
pub mod Ranged
pub mod Scoped
use lambcalc_cpp.Base.{
  ℕ, zero, suc, ◌+◌, Option, none, some, List, [], ◌∷◌, ◌++◌, map, Str, bytes, numbered,
}
use lambcalc_cpp.Anf
use lambcalc_cpp.Anf.{Var, Value, var_value, glob_value}
use lambcalc_cpp.Anf.Links.{Link, first, second, get, set}
use lambcalc_cpp.Closure.FreeVars.{free_vars}

-- `WorklistTask`: a node, or the function that the visit of an `AppExp` pushes, with what it captures.
pub data Task : Type 0 where
  node : Link → Task
  call_closure : Link → Str → List Value → Task

pub record State : Type 0 where
  pub root : Anf.Exp
  pub counter : ℕ
  pub worklist : List Task

-- The loop that puts a projection in front of the body for each free variable.
abbrev pub projections : List Var → Var → ℕ → Anf.Exp → Anf.Exp
projections [] closure_param i body = body
projections (x ∷ xs) closure_param i body =
    projections xs closure_param (i + 1) (Anf.proj_exp x closure_param i body)

-- What the visit of a `FunExp` makes of it.
abbrev pub closure_fun : List Var → Str → Var → List Var → Anf.Exp → Anf.Exp → Anf.Exp
closure_fun free closure_param name params body rest =
    Anf.fun_exp name (closure_param ∷ params) (projections free closure_param 1 body)
      (Anf.tuple_exp name (glob_value name ∷ map var_value free) rest)

abbrev pub deref : {A : Type 0} → Option A → (A → Option State) → Option State
deref none f = none
deref (some a) f = f a

-- `operator()` at each expression, of which `exp` is the one behind the link.
-- `none` is a link that leads nowhere or a computation of free variables that does not end.
unfoldable pub visit : Link → Anf.Exp → State → Option State
visit p (Anf.fun_exp name params body rest) s =
    deref (free_vars (Anf.fun_exp name params body rest)) λ free. some (record {
      root =
          set p (closure_fun free (numbered (bytes "closure") s.counter) name params body rest)
            s.root;
      counter = s.counter + 1;
      worklist = node (p ++ second ∷ []) ∷ node (p ++ first ∷ []) ∷ s.worklist;
    })
visit p (Anf.app_exp name fun_name param_values rest) s = some (record {
  root = set p (Anf.app_exp name fun_name [] rest) s.root;
  counter = s.counter + 1;
  worklist =
      node (p ++ second ∷ [])
      ∷ call_closure p (numbered (bytes "proj") s.counter) (var_value fun_name ∷ param_values)
      ∷ s.worklist;
})
visit p (Anf.join_exp name slot body rest) s =
    some (record s { worklist = node (p ++ second ∷ []) ∷ node (p ++ first ∷ []) ∷ s.worklist })
visit p (Anf.if_exp cond then_branch else_branch) s =
    some (record s { worklist = node (p ++ second ∷ []) ∷ node (p ++ first ∷ []) ∷ s.worklist })
visit p (Anf.bop_exp name bop param1 param2 rest) s =
    some (record s { worklist = node (p ++ second ∷ []) ∷ s.worklist })
visit p (Anf.tuple_exp name values rest) s =
    some (record s { worklist = node (p ++ second ∷ []) ∷ s.worklist })
visit p (Anf.proj_exp name tuple index rest) s =
    some (record s { worklist = node (p ++ second ∷ []) ∷ s.worklist })
visit p (Anf.halt_exp value) s = some s
visit p (Anf.jump_exp join_name slot_value) s = some s

-- The function that the visit of an `AppExp` pushes, at the expression that it captured.
unfoldable pub rebuild : Link → Str → List Value → Anf.Exp → State → Option State
rebuild p proj_name values (Anf.app_exp name fun_name param_values rest) s = some (record s {
  root = set p (Anf.proj_exp proj_name fun_name 0 (Anf.app_exp name proj_name values rest)) s.root;
})
rebuild p proj_name values _ s = none

-- A task that was popped.
unfoldable pub perform : Task → State → Option State
unfolding visit rebuild
perform (node p) s = deref (get p s.root) (λ e. visit p e s)
perform (call_closure p proj_name values) s =
    deref (get p s.root) (λ e. rebuild p proj_name values e s)

abbrev pub after : (State → Option Anf.Exp) → Option State → Option Anf.Exp
after rounds none = none
after rounds (some s) = rounds s

-- `while (!worklist.empty())`, for at most `fuel` rounds, and the root that is returned.
abbrev pub run_tasks : (State → Option Anf.Exp) → List Task → State → Option Anf.Exp
run_tasks rounds [] s = some s.root
run_tasks rounds (t ∷ w) s = after rounds (perform t (record s { worklist = w }))

unfoldable pub run : ℕ → State → Option Anf.Exp
run zero s = run_tasks (λ _. none) s.worklist s
run (suc fuel) s = run_tasks (run fuel) s.worklist s

unfoldable pub start : Anf.Exp → State
start root = record { root = root; counter = 0; worklist = node [] ∷ [] }

-- `closureConvert`, for at most `fuel` rounds of its loop.
unfoldable pub closure_convert : ℕ → Anf.Exp → Option Anf.Exp
unfolding run start
closure_convert fuel root = run fuel (start root)
