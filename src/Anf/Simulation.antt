-- ===== src/Anf/Simulation.antt =====
-- What the stacks of `convertDefunc` stand for, in terms of the recursive conversion.
pub mod Failure
pub mod Rounds
pub mod Measure
use lambcalc_cpp.Base.{ℕ, ◌+◌, ◌≡◌, refl, ◌∙◌, Str, bytes, Option, none, some, List, [], ◌∷◌}
use lambcalc_cpp.Ast
use lambcalc_cpp.Anf
use lambcalc_cpp.Anf.{Value, int_value, var_value, glob_value}
use lambcalc_cpp.Anf.Monad.{
  Outcome, done, throws, null_pointer, M, bind, ◌>>=◌, pure, throw, fresh, fresh_name,
}
use lambcalc_cpp.Anf.Convert.{Cont, convert_cont, convert, jump_to, string_value}
use lambcalc_cpp.Anf.Defunc

-- An application of a value whose name is not known yet.
abbrev pub applying : Value → Value → Cont → M Anf.Exp
applying (var_value f) x k = do
  name ← fresh
  rest ← k (var_value name)
  pure (Anf.app_exp name f (x ∷ []) rest)
applying _ x k = throw (bytes "must apply named value")

abbrev pub frame_meaning : Defunc.KFrame → Cont → Cont
frame_meaning (Defunc.k_app1 x) k = λ v. do
  f ← string_value (bytes "function") v
  convert_cont x
      (λ a. do name ← fresh; rest ← k (var_value name); pure (Anf.app_exp name f (a ∷ []) rest))
frame_meaning (Defunc.k_app2 f) k = λ v. applying f v k
frame_meaning (Defunc.k_bop1 y bop) k = λ v.
    convert_cont y
      λ w. do name ← fresh; rest ← k (var_value name); pure (Anf.bop_exp name bop v w rest)
frame_meaning (Defunc.k_bop2 x bop) k =
    λ w. do name ← fresh; rest ← k (var_value name); pure (Anf.bop_exp name bop x w rest)
frame_meaning (Defunc.k_if1 t f) k = λ c. do
  join_name ← fresh
  slot ← fresh
  body ← k (var_value slot)
  then_exp ← convert_cont t (jump_to join_name)
  else_exp ← convert_cont f (jump_to join_name)
  pure (Anf.join_exp join_name (some slot) body (Anf.if_exp c then_exp else_exp))
frame_meaning (Defunc.k_if2 j) k = jump_to j

abbrev pub k_meaning : Defunc.K → Cont
k_meaning [] = λ v. pure (Anf.halt_exp v)
k_meaning (frame ∷ k) = frame_meaning frame (k_meaning k)

abbrev pub frame2_meaning : Defunc.K2Frame → Anf.Exp → M Anf.Exp
frame2_meaning (Defunc.k2_lam1 k v) e = do
  f ← fresh
  rest ← k_meaning k (var_value f)
  pure (Anf.fun_exp f (v ∷ []) e rest)
frame2_meaning (Defunc.k2_lam2 f v body) e = pure (Anf.fun_exp f (v ∷ []) body e)
frame2_meaning (Defunc.k2_app1 r f x) e = pure (Anf.app_exp r f (x ∷ []) e)
frame2_meaning (Defunc.k2_bop1 r bop x y) e = pure (Anf.bop_exp r bop x y e)
frame2_meaning (Defunc.k2_if1 t f j p c) e = do
  then_exp ← convert_cont t (jump_to j)
  else_exp ← convert_cont f (jump_to j)
  pure (Anf.join_exp j (some p) e (Anf.if_exp c then_exp else_exp))
frame2_meaning (Defunc.k2_if2 f j p c rest) e = do
  else_exp ← convert_cont f (jump_to j)
  pure (Anf.join_exp j (some p) rest (Anf.if_exp c e else_exp))
frame2_meaning (Defunc.k2_if3 t j p c rest) e =
    pure (Anf.join_exp j (some p) rest (Anf.if_exp c t e))

abbrev pub k2_meaning : Defunc.K2 → Anf.Exp → M Anf.Exp
k2_meaning [] e = pure e
k2_meaning (frame ∷ k2) e = frame2_meaning frame e >>= k2_meaning k2

abbrev pub from_pointer : Option Anf.Exp → M Anf.Exp
from_pointer none n = null_pointer
from_pointer (some e) n = done e n

abbrev pub dispatch_meaning : Defunc.Dispatch → Defunc.State → M Anf.Exp
dispatch_meaning Defunc.apply_k2 s = from_pointer s.k2_exp >>= k2_meaning s.k2
dispatch_meaning Defunc.apply_k s = k_meaning s.k s.value >>= k2_meaning s.k2
dispatch_meaning Defunc.go s = convert_cont s.go_exp (k_meaning s.k) >>= k2_meaning s.k2

-- What is still to be done from a state.
abbrev pub meaning : Defunc.State → Outcome Anf.Exp
meaning s = dispatch_meaning s.dispatch s s.counter

abbrev pub after : Defunc.Round → Outcome Anf.Exp
after (Defunc.next s) = meaning s
after (Defunc.ends o) = o

abbrev pub state :
    Defunc.Dispatch → Ast.Exp → Option Anf.Exp → Defunc.K → Defunc.K2 → Value → ℕ → Defunc.State
state d g e k k2 v n = record {
  go_exp = g;
  k2_exp = e;
  k = k;
  k2 = k2;
  value = v;
  dispatch = d;
  counter = n;
}
