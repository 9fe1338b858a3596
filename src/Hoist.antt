-- ===== src/Hoist.antt =====
-- include/hoist.h and src/hoist.cpp: the visitor that moves functions and join points out of the
-- tree, and its loop over a `std::stack` (a list, last pushed first). A body that is moved out of an
-- expression would leave a null pointer there; here it stays, and the loop overwrites the expression.
pub mod Recursive
pub mod Correct
pub mod Blocks
pub mod Closed
pub mod Names
use lambcalc_cpp.Base.{
  ℕ, zero, suc, ◌+◌, Option, none, some, List, [], ◌∷◌, ◌++◌, Str, bytes, numbered, pos,
}
use lambcalc_cpp.Anf
use lambcalc_cpp.Anf.{Var, int_value}
use lambcalc_cpp.Anf.Links.{Link, first, second, get, set}

pub record Join : Type 0 where
  pub name : Var
  pub slot : Option Var
  pub body : Anf.Exp

pub record Function : Type 0 where
  pub name : Var
  pub params : List Var
  pub entry_block : Join
  pub blocks : List Join

-- `WorklistTask`: a node, or a function that a visit pushes, with what it captures. `splice` and
-- the others hold the link of the expression that was visited.
pub data Task : Type 0 where
  node : Link → Task
  splice : Link → Task
  collect_function : Link → List Join → Task
  collect_join : Link → Task
  collect_branches : Link → Task

-- `counter_`, `currentJoins_`, `collected_`, and the tree.
pub record State : Type 0 where
  pub root : Anf.Exp
  pub counter : ℕ
  pub current_joins : List Join
  pub collected : List Function
  pub worklist : List Task

-- `operator()` at each expression, of which the second argument is the one behind the link.
unfoldable pub visit : Link → Anf.Exp → State → State
visit p (Anf.fun_exp name params body rest) s = record s {
  current_joins = [];
  worklist =
      node (p ++ first ∷ [])
      ∷ collect_function p s.current_joins
      ∷ node (p ++ second ∷ [])
      ∷ splice p
      ∷ s.worklist;
}
visit p (Anf.join_exp name slot body rest) s = record s {
  worklist =
      node (p ++ first ∷ []) ∷ collect_join p ∷ node (p ++ second ∷ []) ∷ splice p ∷ s.worklist;
}
visit p (Anf.if_exp cond then_branch else_branch) s = record s {
  worklist = node (p ++ first ∷ []) ∷ node (p ++ second ∷ []) ∷ collect_branches p ∷ s.worklist;
}
visit p (Anf.bop_exp name bop param1 param2 rest) s = record s {
  worklist = node (p ++ second ∷ []) ∷ s.worklist;
}
visit p (Anf.app_exp name fun_name param_values rest) s = record s {
  worklist = node (p ++ second ∷ []) ∷ s.worklist;
}
visit p (Anf.tuple_exp name values rest) s = record s {
  worklist = node (p ++ second ∷ []) ∷ s.worklist;
}
visit p (Anf.proj_exp name tuple index rest) s = record s {
  worklist = node (p ++ second ∷ []) ∷ s.worklist;
}
visit p (Anf.halt_exp value) s = s
visit p (Anf.jump_exp join_name slot_value) s = s

-- `*savedParentLink = std::move(exp.rest)`.
abbrev pub put_rest : Link → Option Anf.Exp → State → Option State
put_rest p none s = none
put_rest p (some rest) s = some (record s { root = set p rest s.root })

-- The function that the visit of a `FunExp` pushes, at the expression that it captured.
unfoldable pub add_function : List Join → Anf.Exp → State → Option State
add_function saved_joins (Anf.fun_exp name params body rest) s = some (record s {
  counter = s.counter + 1;
  collected =
      s.collected
      ++ record {
        name = name;
        params = params;
        entry_block = record {
          name = numbered (bytes "entry") s.counter;
          slot = none;
          body = body;
        };
        blocks = s.current_joins;
      }
        ∷ [];
  current_joins = saved_joins;
})
add_function saved_joins _ s = none

-- The function that the visit of a `JoinExp` pushes.
unfoldable pub add_join : Anf.Exp → State → Option State
add_join (Anf.join_exp name slot body rest) s = some (record s {
  current_joins = s.current_joins ++ record { name = name; slot = slot; body = body } ∷ [];
})
add_join _ s = none

-- The function that the visit of an `IfExp` pushes.
unfoldable pub add_branches : Link → Anf.Exp → State → Option State
add_branches p (Anf.if_exp cond then_branch else_branch) s =
    let then_block_name = numbered (bytes "then") s.counter in
    let else_block_name = numbered (bytes "else") (s.counter + 1) in
    some (record s {
      counter = s.counter + 2;
      current_joins =
          s.current_joins
          ++ record { name = then_block_name; slot = none; body = then_branch }
            ∷ record { name = else_block_name; slot = none; body = else_branch }
            ∷ [];
      root =
          set p
            (Anf.if_exp cond (Anf.jump_exp then_block_name none)
              (Anf.jump_exp else_block_name none))
            s.root;
    })
add_branches p _ s = none

abbrev pub deref : {A : Type 0} → Option A → (A → Option State) → Option State
deref none f = none
deref (some a) f = f a

-- A task that was popped; `none` is a link that leads nowhere or to another kind of expression.
unfoldable pub perform : Task → State → Option State
unfolding visit add_function add_join add_branches
perform (node p) s = deref (get p s.root) (λ e. some (visit p e s))
perform (splice p) s = put_rest p (get (p ++ second ∷ []) s.root) s
perform (collect_function p saved_joins) s =
    deref (get p s.root) (λ e. add_function saved_joins e s)
perform (collect_join p) s = deref (get p s.root) (λ e. add_join e s)
perform (collect_branches p) s = deref (get p s.root) (λ e. add_branches p e s)

abbrev pub after : (State → Option (List Function)) → Option State → Option (List Function)
after rounds none = none
after rounds (some s) = rounds s

-- `while (!worklist.empty())`, for at most `fuel` rounds, and `moveOutCollectedFunctions`.
abbrev pub run_tasks : (State → Option (List Function)) → List Task → State → Option (List Function)
run_tasks rounds [] s = some s.collected
run_tasks rounds (t ∷ w) s = after rounds (perform t (record s { worklist = w }))

unfoldable pub run : ℕ → State → Option (List Function)
unfolding perform
run zero s = run_tasks (λ _. none) s.worklist s
run (suc fuel) s = run_tasks (run fuel) s.worklist s

abbrev pub main_fun : Anf.Exp → Anf.Exp
main_fun start = Anf.fun_exp (bytes "main") [] start (Anf.halt_exp (int_value (pos 0)))

unfoldable pub start : Anf.Exp → State
start exp = record {
  root = main_fun exp;
  counter = 0;
  current_joins = [];
  collected = [];
  worklist = node [] ∷ [];
}

-- The rounds for the tasks that a visit of the expression pushes, and `f` more.
abbrev pub rounds : Anf.Exp → ℕ → ℕ
rounds (Anf.fun_exp name params body rest) f = suc (rounds body (suc (suc (rounds rest (suc f)))))
rounds (Anf.join_exp name slot body rest) f = suc (rounds body (suc (suc (rounds rest (suc f)))))
rounds (Anf.if_exp cond t e) f = suc (rounds t (suc (rounds e (suc f))))
rounds (Anf.bop_exp name bop param1 param2 rest) f = suc (rounds rest f)
rounds (Anf.app_exp name fun_name param_values rest) f = suc (rounds rest f)
rounds (Anf.tuple_exp name values rest) f = suc (rounds rest f)
rounds (Anf.proj_exp name tuple index rest) f = suc (rounds rest f)
rounds (Anf.halt_exp value) f = f
rounds (Anf.jump_exp join_name slot_value) f = f

-- `hoist(start)`.
unfoldable pub hoist : Anf.Exp → Option (List Function)
unfolding run start
hoist exp = run (suc (rounds (main_fun exp) 0)) (start exp)
