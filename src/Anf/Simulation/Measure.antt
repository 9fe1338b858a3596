-- ===== src/Anf/Simulation/Measure.antt =====
-- Every round of `convertDefunc` makes a measure of the state smaller, so the loop ends.
use lambcalc_cpp.Base.{ℕ, ◌+◌, ◌<◌, Option, none, some, [], ◌∷◌, arith}
use lambcalc_cpp.Ast
use lambcalc_cpp.Anf
use lambcalc_cpp.Anf.{Value, int_value, var_value, glob_value}
use lambcalc_cpp.Anf.Defunc
use lambcalc_cpp.Anf.Defunc.{rounds}
use lambcalc_cpp.Anf.Simulation.{state}
use lambcalc_cpp.Anf.Simulation.Failure.{IsLocal}

abbrev frame_rounds : Defunc.KFrame → ℕ
frame_rounds (Defunc.k_app1 x) = rounds x + 2
frame_rounds (Defunc.k_app2 f) = 2
frame_rounds (Defunc.k_bop1 y bop) = rounds y + 2
frame_rounds (Defunc.k_bop2 x bop) = 2
frame_rounds (Defunc.k_if1 t f) = rounds t + rounds f + 4
frame_rounds (Defunc.k_if2 j) = 0

abbrev k_rounds : Defunc.K → ℕ
k_rounds [] = 0
k_rounds (frame ∷ k) = frame_rounds frame + k_rounds k

abbrev frame2_rounds : Defunc.K2Frame → ℕ
frame2_rounds (Defunc.k2_lam1 k v) = k_rounds k + 3
frame2_rounds (Defunc.k2_if1 t f j p c) = rounds t + rounds f + 3
frame2_rounds (Defunc.k2_if2 f j p c rest) = rounds f + 2
frame2_rounds _ = 1

abbrev k2_rounds : Defunc.K2 → ℕ
k2_rounds [] = 0
k2_rounds (frame ∷ k2) = frame2_rounds frame + k2_rounds k2

abbrev dispatch_rounds : Defunc.Dispatch → Ast.Exp → ℕ
dispatch_rounds Defunc.apply_k2 e = 0
dispatch_rounds Defunc.apply_k e = 1
dispatch_rounds Defunc.go e = rounds e

abbrev pub state_rounds : Defunc.State → ℕ
state_rounds s = dispatch_rounds s.dispatch s.go_exp + k_rounds s.k + k2_rounds s.k2

-- A round that does not end the function leaves a local value and fewer rounds.
abbrev pub IsProgress : ℕ → Defunc.Round → Type 0
IsProgress m (Defunc.next s) = IsLocal s.value × (state_rounds s < m)
IsProgress m (Defunc.ends o) = Unit

IsStep : Defunc.State → Type 0
unfolding Defunc.step
IsStep s = IsProgress (state_rounds s) (Defunc.step s)

go-IsStep :
    (g : Ast.Exp) (e : Option Anf.Exp) (k : Defunc.K) (k2 : Defunc.K2) (v : Value) (n : ℕ)
    → IsLocal v
    → IsStep (state Defunc.go g e k k2 v n)
unfolding Defunc.step IsStep
go-IsStep (Ast.int_exp i) e k k2 v n l = (tt, omega arith)
go-IsStep (Ast.var_exp x) e k k2 v n l = (tt, omega arith)
go-IsStep (Ast.lam_exp param body) e k k2 v n l = (l, omega arith)
go-IsStep _ e k k2 v n l = (l, omega arith)

apply_k-IsStep :
    (g : Ast.Exp) (e : Option Anf.Exp) (k : Defunc.K) (k2 : Defunc.K2) (v : Value) (n : ℕ)
    → IsLocal v
    → IsStep (state Defunc.apply_k g e k k2 v n)
unfolding Defunc.step IsStep
apply_k-IsStep g e [] k2 v n l = (l, omega arith)
apply_k-IsStep g e (Defunc.k_app2 (var_value f) ∷ k) k2 v n l = (tt, omega arith)
apply_k-IsStep g e (Defunc.k_app2 (int_value i) ∷ k) k2 v n l = tt
apply_k-IsStep g e (Defunc.k_app2 (glob_value f) ∷ k) k2 v n l = tt
apply_k-IsStep g e (Defunc.k_bop2 x bop ∷ k) k2 v n l = (tt, omega arith)
apply_k-IsStep g e (Defunc.k_if1 t f ∷ k) k2 v n l = (tt, omega arith)
apply_k-IsStep g e (_ ∷ k) k2 v n l = (l, omega arith)

apply_k2-IsStep :
    (g : Ast.Exp) (e : Option Anf.Exp) (k : Defunc.K) (k2 : Defunc.K2) (v : Value) (n : ℕ)
    → IsLocal v
    → IsStep (state Defunc.apply_k2 g e k k2 v n)
unfolding Defunc.step IsStep
apply_k2-IsStep g none k k2 v n l = tt
apply_k2-IsStep g (some e) k [] v n l = tt
apply_k2-IsStep g (some e) k (Defunc.k2_lam1 k' x ∷ k2) v n l = (tt, omega arith)
apply_k2-IsStep g (some e) k (_ ∷ k2) v n l = (l, omega arith)

dispatch-IsStep :
    (d : Defunc.Dispatch) (g : Ast.Exp) (e : Option Anf.Exp) (k : Defunc.K) (k2 : Defunc.K2)
    (v : Value) (n : ℕ)
    → IsLocal v
    → IsStep (state d g e k k2 v n)
dispatch-IsStep Defunc.go = go-IsStep
dispatch-IsStep Defunc.apply_k = apply_k-IsStep
dispatch-IsStep Defunc.apply_k2 = apply_k2-IsStep

-- The measure falls in every round.
pub step-IsProgress :
    (s : Defunc.State) → IsLocal s.value → IsProgress (state_rounds s) (Defunc.step s)
unfolding IsStep
step-IsProgress s l = dispatch-IsStep s.dispatch s.go_exp s.k2_exp s.k s.k2 s.value s.counter l
