-- ===== src/Anf/Convert.antt =====
-- src/anf.cpp, `AnfConvertVisitor`: the recursive conversion in continuation-passing style.
use lambcalc_cpp.Base.{Str, bytes, ◌++◌, some, [], ◌∷◌}
use lambcalc_cpp.Ast
use lambcalc_cpp.Anf
use lambcalc_cpp.Anf.{Value, int_value, var_value, glob_value}
use lambcalc_cpp.Anf.Monad.{M, ◌>>=◌, pure, throw, fresh}

abbrev pub Cont : Type 0
Cont = Value → M Anf.Exp

-- `StringValueVisitor<lit>`.
abbrev pub string_value : Str → Value → M Str
string_value lit (var_value v) = pure v
string_value lit (glob_value g) = pure g
string_value lit (int_value i) = throw (lit ++ bytes " expected to return var or glob")

-- The continuation of both branches of an `if`.
abbrev pub jump_to : Str → Cont
jump_to join_name v = pure (Anf.jump_exp join_name (some v))

unfoldable pub convert_cont : Ast.Exp → Cont → M Anf.Exp
convert_cont (Ast.int_exp i) k = k (int_value i)
convert_cont (Ast.var_exp x) k = k (var_value x)
convert_cont (Ast.lam_exp param body) k = do
  body' ← convert_cont body λ v. pure (Anf.halt_exp v)
  name ← fresh
  rest ← k (var_value name)
  pure (Anf.fun_exp name (param ∷ []) body' rest)
convert_cont (Ast.app_exp fn arg) k = convert_cont fn λ fn_value. do
  fn_name ← string_value (bytes "function") fn_value
  convert_cont arg λ arg_value. do
    name ← fresh
    rest ← k (var_value name)
    pure (Anf.app_exp name fn_name (arg_value ∷ []) rest)
convert_cont (Ast.bop_exp bop arg1 arg2) k = convert_cont arg1 λ arg1_value.
    convert_cont arg2 λ arg2_value. do
      name ← fresh
      rest ← k (var_value name)
      pure (Anf.bop_exp name bop arg1_value arg2_value rest)
convert_cont (Ast.if_exp cond then_branch else_branch) k = convert_cont cond λ cond_value. do
  join_name ← fresh
  slot ← fresh
  body ← k (var_value slot)
  then_exp ← convert_cont then_branch (jump_to join_name)
  else_exp ← convert_cont else_branch (jump_to join_name)
  pure (Anf.join_exp join_name (some slot) body (Anf.if_exp cond_value then_exp else_exp))

-- `anf::convert`.
unfoldable pub convert : Ast.Exp → M Anf.Exp
unfolding convert_cont
convert exp = convert_cont exp λ v. pure (Anf.halt_exp v)
