-- ===== src/Anf/Simulation/Rounds.antt =====
-- A round of `convertDefunc` keeps what its stacks stand for.
use lambcalc_cpp.Base.{ℕ, ◌+◌, ◌≡◌, refl, ◌∙◌, Option, none, some, [], ◌∷◌}
use lambcalc_cpp.Ast
use lambcalc_cpp.Anf
use lambcalc_cpp.Anf.{Value, int_value, var_value, glob_value}
use lambcalc_cpp.Anf.Monad.{bind_assoc, bind_congr}
use lambcalc_cpp.Anf.Convert.{convert_cont}
use lambcalc_cpp.Anf.Defunc
use lambcalc_cpp.Anf.Simulation.{k_meaning, meaning, after, state}
use lambcalc_cpp.Anf.Simulation.Failure.{
  IsLocal, Agrees, Agrees-of_eq, Agrees-of_IsThrown, IsThrown-bind, convert_cont-IsThrown,
}

-- Starting a subexpression pushes what is to be done with it.
go_step-meaning :
    (g : Ast.Exp) (e : Option Anf.Exp) (k : Defunc.K) (k2 : Defunc.K2) (v : Value) (n : ℕ)
    → meaning (state Defunc.go g e k k2 v n) ≡ after (Defunc.step (state Defunc.go g e k k2 v n))
unfolding convert_cont Defunc.step
go_step-meaning (Ast.int_exp i) e k k2 v n = refl
go_step-meaning (Ast.var_exp i) e k k2 v n = refl
go_step-meaning (Ast.lam_exp param body) e k k2 v n =
    bind_assoc (convert_cont body _ n) _ _
    ∙ bind_congr (convert_cont body _ n) (λ a m. simp bind_assoc)
go_step-meaning (Ast.app_exp fn arg) e k k2 v n = refl
go_step-meaning (Ast.bop_exp bop arg1 arg2) e k k2 v n = refl
go_step-meaning (Ast.if_exp c t f) e k k2 v n = refl

-- Popping a frame of `k2` does what it stood for.
apply_k2_step-meaning :
    (g : Ast.Exp) (e : Option Anf.Exp) (k : Defunc.K) (k2 : Defunc.K2) (v : Value) (n : ℕ)
    → meaning (state Defunc.apply_k2 g e k k2 v n)
      ≡ after (Defunc.step (state Defunc.apply_k2 g e k k2 v n))
unfolding convert_cont Defunc.step
apply_k2_step-meaning g none k k2 v n = refl
apply_k2_step-meaning g (some e) k [] v n = refl
apply_k2_step-meaning g (some e) k (Defunc.k2_lam1 k' x ∷ k2) v n = simp bind_assoc
apply_k2_step-meaning g (some e) k (Defunc.k2_lam2 f x b ∷ k2) v n = refl
apply_k2_step-meaning g (some e) k (Defunc.k2_app1 r f x ∷ k2) v n = refl
apply_k2_step-meaning g (some e) k (Defunc.k2_bop1 r b x y ∷ k2) v n = refl
apply_k2_step-meaning g (some e) k (Defunc.k2_if1 t f j p c ∷ k2) v n =
    bind_assoc (convert_cont t _ n) _ _ ∙ bind_congr (convert_cont t _ n) (λ a m. simp bind_assoc)
apply_k2_step-meaning g (some e) k (Defunc.k2_if2 f j p c r ∷ k2) v n = simp bind_assoc
apply_k2_step-meaning g (some e) k (Defunc.k2_if3 t j p c r ∷ k2) v n = refl

-- Popping a frame of `k` does what it stood for, or an exception is as certain as before.
apply_k_step-meaning :
    (g : Ast.Exp) (e : Option Anf.Exp) (k : Defunc.K) (k2 : Defunc.K2) (v : Value) (n : ℕ)
    → IsLocal v
    → Agrees
        (meaning (state Defunc.apply_k g e k k2 v n))
        (after (Defunc.step (state Defunc.apply_k g e k k2 v n)))
unfolding convert_cont Defunc.step
apply_k_step-meaning g e [] k2 v n l = Agrees-of_eq refl
apply_k_step-meaning g e (Defunc.k_app1 x ∷ k) k2 (int_value i) n l =
    Agrees-of_IsThrown (meaning (state Defunc.apply_k g e (Defunc.k_app1 x ∷ k) k2 (int_value i) n))
      _ tt (IsThrown-bind (convert_cont x _ n) _ (convert_cont-IsThrown x _ (λ v m. tt) n))
apply_k_step-meaning g e (Defunc.k_app1 x ∷ k) k2 (var_value f) n l = Agrees-of_eq refl
apply_k_step-meaning g e (Defunc.k_app1 x ∷ k) k2 (glob_value f) n l = absurd l
apply_k_step-meaning g e (Defunc.k_app2 (var_value f) ∷ k) k2 v n l = Agrees-of_eq (simp bind_assoc)
apply_k_step-meaning g e (Defunc.k_app2 (int_value f) ∷ k) k2 v n l = tt
apply_k_step-meaning g e (Defunc.k_app2 (glob_value f) ∷ k) k2 v n l = tt
apply_k_step-meaning g e (Defunc.k_bop1 y bop ∷ k) k2 v n l = Agrees-of_eq refl
apply_k_step-meaning g e (Defunc.k_bop2 x bop ∷ k) k2 v n l = Agrees-of_eq (simp bind_assoc)
apply_k_step-meaning g e (Defunc.k_if1 t f ∷ k) k2 v n l =
    Agrees-of_eq (bind_assoc (k_meaning k _ (n + 1 + 1)) _ _)
apply_k_step-meaning g e (Defunc.k_if2 j ∷ k) k2 v n l = Agrees-of_eq refl

dispatch_step-meaning :
    (d : Defunc.Dispatch) (g : Ast.Exp) (e : Option Anf.Exp) (k : Defunc.K) (k2 : Defunc.K2)
    (v : Value) (n : ℕ)
    → IsLocal v
    → Agrees (meaning (state d g e k k2 v n)) (after (Defunc.step (state d g e k k2 v n)))
dispatch_step-meaning Defunc.go g e k k2 v n l = Agrees-of_eq (go_step-meaning g e k k2 v n)
dispatch_step-meaning Defunc.apply_k g e k k2 v n l = apply_k_step-meaning g e k k2 v n l
dispatch_step-meaning Defunc.apply_k2 g e k k2 v n l =
    Agrees-of_eq (apply_k2_step-meaning g e k k2 v n)

-- A round keeps what is still to be done.
pub step-meaning : (s : Defunc.State) → IsLocal s.value → Agrees (meaning s) (after (Defunc.step s))
step-meaning s l = dispatch_step-meaning s.dispatch s.go_exp s.k2_exp s.k s.k2 s.value s.counter l
