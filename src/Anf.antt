-- ===== src/Anf.antt =====
-- include/anf.h: values and expressions in A-normal form.
pub mod Monad
pub mod Convert
pub mod Defunc
pub mod Simulation
pub mod Equivalence
pub mod Success
pub mod Links
pub mod Print
pub mod Scoped
pub mod Unshadowed
pub mod Known
pub mod Shape
pub mod Ranged
pub mod Semantics
pub mod Preserves
pub mod Determined
pub mod Names
use lambcalc_cpp.Base.{Str, ℤ, ℕ, List, Option}
use lambcalc_cpp.Ast.{Bop}

abbrev pub Var : Type 0
Var = Str

pub data Value : Type 0 where
  int_value : ℤ → Value
  var_value : Var → Value
  glob_value : Var → Value

-- The arguments stand in the order of the struct's fields.
pub data Exp : Type 0 where
  halt_exp : Value → Exp
  fun_exp : Var → List Var → Exp → Exp → Exp
  join_exp : Var → Option Var → Exp → Exp → Exp
  jump_exp : Var → Option Value → Exp
  app_exp : Var → Var → List Value → Exp → Exp
  bop_exp : Var → Bop → Value → Value → Exp → Exp
  if_exp : Value → Exp → Exp → Exp
  tuple_exp : Var → List Value → Exp → Exp
  proj_exp : Var → Var → ℕ → Exp → Exp
