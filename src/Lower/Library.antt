-- ===== src/Lower/Library.antt =====
-- src/lower.cpp: what it calls of LLVM. An `Ir` is the module together with the builder and its point
-- of insertion, which each operation of the builder takes and returns. The operands are pointers that
-- must not be null, except for that of `CreateRet`, where null makes the instruction `ret void`.
use lambcalc_cpp.Base.{ℤ, Option, List, Str}

-- `llvm::Instruction::BinaryOps`.
pub data BinaryOp : Type 0 where
  add : BinaryOp
  sub : BinaryOp
  mul : BinaryOp

pub record Llvm : Type 1 where
  pub Ir : Type 0
  pub Ty : Type 0
  pub Value : Type 0
  pub Block : Type 0
  pub ptr_ty : Ty
  pub int64_ty : Ty
  -- the type of the result, and those of the parameters
  pub function_ty : Ty → List Ty → Ty
  -- the pointer to a type
  pub pointer_ty : Ty → Ty
  pub int64 : ℤ → Value
  pub get_function : Str → Ir → Option Value
  pub get_global : Str → Ir → Option Value
  pub insert_global : Str → Ty → Ir → Value × Ir
  pub insert_function : Str → Ty → Ir → Value × Ir
  pub create_function : Ty → Str → Ir → Ir
  pub args : Value → Ir → List Value
  pub set_name : Value → Str → Ir → Ir
  pub create_block : Str → Value → Ir → Block × Ir
  pub set_insert_point : Block → Ir → Ir
  pub create_alloca : Ty → Ir → Value × Ir
  pub create_load : Ty → Value → Str → Ir → Value × Ir
  -- the value, and where it is stored
  pub create_store : Value → Value → Ir → Ir
  pub create_ptr_to_int : Value → Ty → Ir → Value × Ir
  pub create_int_to_ptr : Value → Ty → Ir → Value × Ir
  -- the address of the element at an index
  pub create_gep : Ty → Value → Value → Ir → Value × Ir
  -- a pointer that is called at a type, and a function
  pub create_call_at : Ty → Value → List Value → Str → Ir → Value × Ir
  pub create_call : Value → List Value → Str → Ir → Value × Ir
  pub create_bin_op : BinaryOp → Value → Value → Str → Ir → Value × Ir
  pub create_icmp_ne : Value → Value → Ir → Value × Ir
  pub create_br : Block → Ir → Ir
  pub create_cond_br : Value → Block → Block → Ir → Ir
  pub create_ret : Option Value → Ir → Ir
