-- ===== src/Hoist/Recursive.antt =====
-- src/hoist.cpp: hoisting as a recursion that returns what is left of the expression, the counter,
-- the join points of the function that is open, and the functions that are complete.
use lambcalc_cpp.Base.{ℕ, ◌+◌, Option, none, List, [], ◌∷◌, ◌++◌, Str, bytes, numbered}
use lambcalc_cpp.Anf
use lambcalc_cpp.Anf.{Var, Value}
use lambcalc_cpp.Hoist.{Join, Function, main_fun}

pub record Parts : Type 0 where
  pub counter : ℕ
  pub joins : List Join
  pub functions : List Function

-- The function whose body has been hoisted, when its own join points are in `s`.
abbrev pub with_function : Var → List Var → Anf.Exp → List Join → Parts → Parts
with_function name params body joins s = record {
  counter = s.counter + 1;
  joins = joins;
  functions =
      s.functions
      ++ record {
        name = name;
        params = params;
        entry_block = record {
          name = numbered (bytes "entry") s.counter;
          slot = none;
          body = body;
        };
        blocks = s.joins;
      }
        ∷ [];
}

abbrev pub with_join : Var → Option Var → Anf.Exp → Parts → Parts
with_join name slot body s = record s {
  joins = s.joins ++ record { name = name; slot = slot; body = body } ∷ [];
}

abbrev pub then_name : Parts → Str
then_name s = numbered (bytes "then") s.counter

abbrev pub else_name : Parts → Str
else_name s = numbered (bytes "else") (s.counter + 1)

abbrev pub with_branches : Anf.Exp → Anf.Exp → Parts → Parts
with_branches t e s = record s {
  counter = s.counter + 2;
  joins =
      s.joins
      ++ record { name = then_name s; slot = none; body = t }
        ∷ record { name = else_name s; slot = none; body = e }
        ∷ [];
}

abbrev pub branch : Value → Parts → Anf.Exp
branch cond s = Anf.if_exp cond (Anf.jump_exp (then_name s) none) (Anf.jump_exp (else_name s) none)

unfoldable pub hoist_from : Anf.Exp → Parts → Anf.Exp × Parts
hoist_from (Anf.fun_exp name params body rest) s =
    let (body', s₁) = hoist_from body (record s { joins = [] }) in
    hoist_from rest (with_function name params body' s.joins s₁)
hoist_from (Anf.join_exp name slot body rest) s =
    let (body', s₁) = hoist_from body s in hoist_from rest (with_join name slot body' s₁)
hoist_from (Anf.if_exp cond t e) s =
    let (t', s₁) = hoist_from t s in
    let (e', s₂) = hoist_from e s₁ in (branch cond s₂, with_branches t' e' s₂)
hoist_from (Anf.bop_exp name bop param1 param2 rest) s =
    let (rest', s₁) = hoist_from rest s in (Anf.bop_exp name bop param1 param2 rest', s₁)
hoist_from (Anf.app_exp name fun_name param_values rest) s =
    let (rest', s₁) = hoist_from rest s in (Anf.app_exp name fun_name param_values rest', s₁)
hoist_from (Anf.tuple_exp name values rest) s =
    let (rest', s₁) = hoist_from rest s in (Anf.tuple_exp name values rest', s₁)
hoist_from (Anf.proj_exp name tuple index rest) s =
    let (rest', s₁) = hoist_from rest s in (Anf.proj_exp name tuple index rest', s₁)
hoist_from (Anf.halt_exp value) s = (Anf.halt_exp value, s)
hoist_from (Anf.jump_exp join_name slot_value) s = (Anf.jump_exp join_name slot_value, s)

abbrev pub nothing : Parts
nothing = record { counter = 0; joins = []; functions = [] }

-- The functions of a program.
abbrev pub functions_of : Anf.Exp → List Function
functions_of exp = (hoist_from (main_fun exp) nothing).1.functions
