-- ===== src/Rename.antt =====
-- src/rename.cpp: the visitor that gives each parameter a name of its own, in place, and its loop
-- over a `std::stack` (a list, last pushed first). The map `rename_` is a function.
pub mod Recursive
pub mod Correct
pub mod Scope
pub mod Fresh
pub mod Binding
pub mod Distinct
pub mod Named
pub mod Preserves
use lambcalc_cpp.Base.{
  ℕ, zero, suc, ◌+◌, Option, none, some, List, [], ◌∷◌, ◌++◌, Str, str_eq, numbered, if◌then◌else◌,
}
use lambcalc_cpp.Ast
use lambcalc_cpp.Ast.Links.{Link, first, second, third, get, set}

abbrev pub Renaming : Type 0
Renaming = Str → Option Str

-- `rename_[x] = y` for `some y`, and `rename_.erase(x)` for `none`.
abbrev pub assign : Str → Option Str → Renaming → Renaming
assign x y rename z = if str_eq z x then y else rename z

abbrev pub empty : Renaming
empty x = none

-- `WorklistTask`: a node, or the function that the visit of a `LamExp` pushes, with what it captures.
pub data Task : Type 0 where
  node : Link → Task
  restore : Str → Option Str → Task

pub record State : Type 0 where
  pub root : Ast.Exp
  pub counter : ℕ
  pub rename : Renaming
  pub worklist : List Task

-- How `rename` ends.
pub data Renamed : Type 0 where
  renamed : Ast.Exp → Renamed
  not_in_scope : Str → Renamed
  broken_link : Renamed

pub data Round : Type 0 where
  next : State → Round
  ends : Renamed → Round

abbrev pub visit_var : Link → Str → Option Str → State → Round
visit_var p name (some y) s = next (record s { root = set p (Ast.var_exp y) s.root })
visit_var p name none s = ends (not_in_scope name)

-- `operator()` at each expression, of which the argument is the one behind the link.
unfoldable pub visit : Link → Ast.Exp → State → Round
visit p (Ast.lam_exp param body) s =
    let new_name = numbered param s.counter in
    next (record {
      root = set p (Ast.lam_exp new_name body) s.root;
      counter = s.counter + 1;
      rename = assign param (some new_name) s.rename;
      worklist = node (p ++ first ∷ []) ∷ restore param (s.rename param) ∷ s.worklist;
    })
visit p (Ast.var_exp name) s = visit_var p name (s.rename name) s
visit p (Ast.int_exp value) s = next s
visit p (Ast.app_exp fn arg) s =
    next (record s { worklist = node (p ++ second ∷ []) ∷ node (p ++ first ∷ []) ∷ s.worklist })
visit p (Ast.bop_exp bop arg1 arg2) s =
    next (record s { worklist = node (p ++ second ∷ []) ∷ node (p ++ first ∷ []) ∷ s.worklist })
visit p (Ast.if_exp cond then_branch else_branch) s = next (record s {
  worklist = node (p ++ third ∷ []) ∷ node (p ++ second ∷ []) ∷ node (p ++ first ∷ []) ∷ s.worklist;
})

abbrev pub visit_at : Link → Option Ast.Exp → State → Round
visit_at p none s = ends broken_link
visit_at p (some e) s = visit p e s

-- A task that was popped.
unfoldable pub perform : Task → State → Round
unfolding visit
perform (node p) s = visit_at p (get p s.root) s
perform (restore x y) s = next (record s { rename = assign x y s.rename })

abbrev pub after : (State → Option Renamed) → Round → Option Renamed
after rounds (next s) = rounds s
after rounds (ends r) = some r

abbrev pub run_tasks : (State → Option Renamed) → List Task → State → Option Renamed
run_tasks rounds [] s = some (renamed s.root)
run_tasks rounds (t ∷ w) s = after rounds (perform t (record s { worklist = w }))

-- `while (!worklist.empty())`, for at most `fuel` rounds. `none` means that they did not suffice.
unfoldable pub run : ℕ → State → Option Renamed
unfolding perform
run zero s = run_tasks (λ _. none) s.worklist s
run (suc fuel) s = run_tasks (run fuel) s.worklist s

unfoldable pub start : Ast.Exp → State
start root = record { root = root; counter = 0; rename = empty; worklist = node [] ∷ [] }

-- The rounds for the tasks that a visit of the expression pushes, and `f` more.
abbrev pub rounds : Ast.Exp → ℕ → ℕ
rounds (Ast.int_exp value) f = f
rounds (Ast.var_exp name) f = f
rounds (Ast.lam_exp param body) f = suc (rounds body (suc f))
rounds (Ast.app_exp fn arg) f = suc (rounds arg (suc (rounds fn f)))
rounds (Ast.bop_exp bop arg1 arg2) f = suc (rounds arg2 (suc (rounds arg1 f)))
rounds (Ast.if_exp cond t e) f = suc (rounds e (suc (rounds t (suc (rounds cond f)))))

-- `rename(exp)`.
unfoldable pub rename : Ast.Exp → Option Renamed
unfolding run start
rename root = run (suc (rounds root 0)) (start root)
