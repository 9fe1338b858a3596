-- ===== src/Anf/Defunc.antt =====
-- src/anf.cpp, `convertDefunc`: the conversion as a state machine that keeps its stacks in vectors.
-- A vector that is used as a stack is a list, last pushed first. `step` is one round of the loop.
use lambcalc_cpp.Base.{ℕ, zero, suc, ◌+◌, Str, bytes, pos, Option, none, some, List, [], ◌∷◌}
use lambcalc_cpp.Ast
use lambcalc_cpp.Ast.{Bop}
use lambcalc_cpp.Anf
use lambcalc_cpp.Anf.{Value, int_value, var_value, glob_value}
use lambcalc_cpp.Anf.Monad.{Outcome, done, throws, null_pointer, fresh_name}

-- Frames of the continuation of a value: `K_App1` to `K_If2`.
pub data KFrame : Type 0 where
  k_app1 : Ast.Exp → KFrame
  k_app2 : Value → KFrame
  k_bop1 : Ast.Exp → Bop → KFrame
  k_bop2 : Value → Bop → KFrame
  k_if1 : Ast.Exp → Ast.Exp → KFrame
  k_if2 : Str → KFrame

abbrev pub K : Type 0
K = List KFrame

-- Frames of the continuation of an expression: `K2_Lam1` to `K2_If3`.
pub data K2Frame : Type 0 where
  k2_lam1 : K → Str → K2Frame
  k2_lam2 : Str → Str → Anf.Exp → K2Frame
  k2_app1 : Str → Str → Value → K2Frame
  k2_bop1 : Str → Bop → Value → Value → K2Frame
  k2_if1 : Ast.Exp → Ast.Exp → Str → Str → Value → K2Frame
  k2_if2 : Ast.Exp → Str → Str → Value → Anf.Exp → K2Frame
  k2_if3 : Anf.Exp → Str → Str → Value → Anf.Exp → K2Frame

abbrev pub K2 : Type 0
K2 = List K2Frame

pub data Dispatch : Type 0 where
  apply_k2 apply_k go : Dispatch

-- The variables of the function, and the static `counter`. `k2_exp` is null until an expression is
-- built and after it was moved from; a moved-from `value` keeps its old content, which is not read.
pub record State : Type 0 where
  pub go_exp : Ast.Exp
  pub k2_exp : Option Anf.Exp
  pub k : K
  pub k2 : K2
  pub value : Value
  pub dispatch : Dispatch
  pub counter : ℕ

-- What a round of the loop leads to: another round, or the end of the function.
pub data Round : Type 0 where
  next : State → Round
  ends : Outcome Anf.Exp → Round

-- The lambdas of `case APPLY_K2`: the frame is popped from `k2`, and the expression moved out of
-- `k2_exp`; a frame that builds an expression puts it back.
apply_k2_frame : K2Frame → Anf.Exp → State → Round
apply_k2_frame (k2_lam1 k v) e s =
    let f = fresh_name s.counter in
    next (record s {
      k = k;
      value = var_value f;
      k2 = k2_lam2 f v e ∷ s.k2;
      k2_exp = none;
      dispatch = apply_k;
      counter = s.counter + 1;
    })
apply_k2_frame (k2_lam2 f v body) e s =
    next (record s { k2_exp = some (Anf.fun_exp f (v ∷ []) body e) })
apply_k2_frame (k2_app1 r f x) e s = next (record s { k2_exp = some (Anf.app_exp r f (x ∷ []) e) })
apply_k2_frame (k2_bop1 r bop x y) e s = next (record s { k2_exp = some (Anf.bop_exp r bop x y e) })
apply_k2_frame (k2_if1 t f j p c) e s = next (record s {
  go_exp = t;
  k2 = k2_if2 f j p c e ∷ s.k2;
  k2_exp = none;
  k = k_if2 j ∷ [];
  dispatch = go;
})
apply_k2_frame (k2_if2 f j p c rest) e s = next (record s {
  go_exp = f;
  k2 = k2_if3 e j p c rest ∷ s.k2;
  k2_exp = none;
  k = k_if2 j ∷ [];
  dispatch = go;
})
apply_k2_frame (k2_if3 t j p c rest) e s =
    next (record s { k2_exp = some (Anf.join_exp j (some p) rest (Anf.if_exp c t e)) })

-- `case APPLY_K2`.
apply_k2_step : K2 → Option Anf.Exp → State → Round
apply_k2_step k2 none s = ends null_pointer
apply_k2_step [] (some e) s = ends (done e s.counter)
apply_k2_step (frame ∷ k2) (some e) s = apply_k2_frame frame e (record s { k2 = k2 })

-- The visitor inside `K_App2`.
apply_named : Value → State → Round
apply_named (var_value f) s =
    let r = fresh_name s.counter in
    next
      (record s { k2 = k2_app1 r f s.value ∷ s.k2; value = var_value r; counter = s.counter + 1 })
apply_named _ s = ends (throws (bytes "must apply named value") s.counter)

-- The lambdas of `case APPLY_K`: the frame is popped from `k`.
apply_k_frame : KFrame → State → Round
apply_k_frame (k_app1 x) s = next (record s { go_exp = x; k = k_app2 s.value ∷ s.k; dispatch = go })
apply_k_frame (k_app2 f) s = apply_named f s
apply_k_frame (k_bop1 y bop) s =
    next (record s { go_exp = y; k = k_bop2 s.value bop ∷ s.k; dispatch = go })
apply_k_frame (k_bop2 x bop) s =
    let r = fresh_name s.counter in
    next (record s {
      k2 = k2_bop1 r bop x s.value ∷ s.k2;
      value = var_value r;
      counter = s.counter + 1;
    })
apply_k_frame (k_if1 t f) s =
    let j = fresh_name s.counter in
    let p = fresh_name (s.counter + 1) in
    next (record s {
      k2 = k2_if1 t f j p s.value ∷ s.k2;
      value = var_value p;
      counter = s.counter + 1 + 1;
    })
apply_k_frame (k_if2 j) s =
    next (record s { k2_exp = some (Anf.jump_exp j (some s.value)); dispatch = apply_k2 })

-- `case APPLY_K`.
apply_k_step : K → State → Round
apply_k_step [] s = next (record s { k2_exp = some (Anf.halt_exp s.value); dispatch = apply_k2 })
apply_k_step (frame ∷ k) s = apply_k_frame frame (record s { k = k })

-- `case GO`.
go_step : Ast.Exp → State → Round
go_step (Ast.int_exp i) s = next (record s { value = int_value i; dispatch = apply_k })
go_step (Ast.var_exp x) s = next (record s { value = var_value x; dispatch = apply_k })
go_step (Ast.lam_exp param body) s =
    next (record s { go_exp = body; k = []; k2 = k2_lam1 s.k param ∷ s.k2 })
go_step (Ast.app_exp fn arg) s = next (record s { go_exp = fn; k = k_app1 arg ∷ s.k })
go_step (Ast.bop_exp bop arg1 arg2) s = next (record s { go_exp = arg1; k = k_bop1 arg2 bop ∷ s.k })
go_step (Ast.if_exp cond t f) s = next (record s { go_exp = cond; k = k_if1 t f ∷ s.k })

dispatch_step : Dispatch → State → Round
dispatch_step apply_k2 s = apply_k2_step s.k2 s.k2_exp s
dispatch_step apply_k s = apply_k_step s.k s
dispatch_step go s = go_step s.go_exp s

unfoldable pub step : State → Round
unfolding dispatch_step apply_k2_step apply_k2_frame apply_k_step apply_k_frame apply_named go_step
step s = dispatch_step s.dispatch s

abbrev pub resume : (State → Option (Outcome Anf.Exp)) → Round → Option (Outcome Anf.Exp)
resume rounds (next s) = rounds s
resume rounds (ends o) = some o

-- `while (true)`, for at most `fuel` rounds. `none` means that the fuel ran out.
unfoldable pub run : ℕ → State → Option (Outcome Anf.Exp)
run zero s = none
run (suc fuel) s = resume (run fuel) (step s)

-- The variables at the head of the loop. A default `Value` holds the first alternative.
unfoldable pub start : Ast.Exp → ℕ → State
start root counter = record {
  go_exp = root;
  k2_exp = none;
  k = [];
  k2 = [];
  value = int_value (pos 0);
  dispatch = go;
  counter = counter;
}

-- The rounds that a conversion takes, at most: the bound on the loop.
abbrev pub rounds : Ast.Exp → ℕ
rounds (Ast.int_exp i) = 2
rounds (Ast.var_exp x) = 2
rounds (Ast.lam_exp param body) = rounds body + 4
rounds (Ast.app_exp fn arg) = rounds fn + rounds arg + 3
rounds (Ast.bop_exp bop arg1 arg2) = rounds arg1 + rounds arg2 + 3
rounds (Ast.if_exp c t f) = rounds c + rounds t + rounds f + 5

unfoldable pub convert_defunc : Ast.Exp → ℕ → Option (Outcome Anf.Exp)
unfolding run start
convert_defunc root counter = run (suc (rounds root)) (start root counter)
