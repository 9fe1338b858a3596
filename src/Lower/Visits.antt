-- ===== src/Lower/Visits.antt =====
-- src/lower.cpp: what a visit of an expression leaves to visit, and the names that have a value then.
use mathlib.Core.Option.{some-injective}
use lambcalc_cpp.Base.{
  ◌≡◌, refl, ap, inr, Bool, true, false, Option, none, some, List, [], ◌∷◌, if◌then◌else◌,
}
use lambcalc_cpp.Anf
use lambcalc_cpp.Anf.{Var, int_value, var_value, glob_value}
use lambcalc_cpp.Anf.Known.{Names, extend, AreKnown}
use lambcalc_cpp.Lower.Library.{Llvm}
use lambcalc_cpp.Lower.{Lowering, lowered, bind, State, pipeline}
use lambcalc_cpp.Lower.Visitor.{visit_tuple, match_if_jump, jump_of, visit}
use lambcalc_cpp.Lower.Ready.{IsReady, Ends-bind}
use lambcalc_cpp.Lower.Values.{Knows, Leaves, named-Knows, kept, pipeline-Knows}
use lambcalc_cpp.Lower.Handlers.{
  visit_halt-Knows, visit_jump-Leaves, visit_app-Leaves, visit_bop-Leaves, store_values-Leaves,
  visit_proj-Leaves, visit_if_jump-Leaves, visit_branches-Knows,
}

-- What is left to visit after an expression.
abbrev pub is_branch : Option (Var × Option Anf.Value) → Option (Var × Option Anf.Value) → Bool
is_branch (some j) (some k) = true
is_branch (some j) none = false
is_branch none k = false

abbrev pub tasks_of : Anf.Exp → List Anf.Exp → List Anf.Exp
tasks_of (Anf.bop_exp name bop param1 param2 rest) w = rest ∷ w
tasks_of (Anf.app_exp name fun_name param_values rest) w = rest ∷ w
tasks_of (Anf.tuple_exp name values rest) w = rest ∷ w
tasks_of (Anf.proj_exp name tuple index rest) w = rest ∷ w
tasks_of (Anf.if_exp cond t e) w = if is_branch (jump_of t) (jump_of e) then w else e ∷ t ∷ w
tasks_of _ w = w

-- The names that have a value after the visit of an expression.
abbrev pub bound : Anf.Exp → Names → Names
bound (Anf.bop_exp name bop param1 param2 rest) K = extend name K
bound (Anf.app_exp name fun_name param_values rest) K = extend name K
bound (Anf.tuple_exp name values rest) K = extend name K
bound (Anf.proj_exp name tuple index rest) K = extend name K
bound _ K = K

pub jump_of-some :
    (e : Anf.Exp) (x : Var) (v : Option Anf.Value) → jump_of e ≡ some (x, v) → e ≡ Anf.jump_exp x v
jump_of-some (Anf.jump_exp y u) x v h =
    let p : (y, u) ≡ (x, v) = some-injective _ _ h in ap (λ p. Anf.jump_exp p.0 p.1) p
jump_of-some (Anf.halt_exp u) x v h = cc
jump_of-some (Anf.fun_exp f ps body rest) x v h = cc
jump_of-some (Anf.join_exp j slot body rest) x v h = cc
jump_of-some (Anf.app_exp y f vs rest) x v h = cc
jump_of-some (Anf.bop_exp y bop a b rest) x v h = cc
jump_of-some (Anf.tuple_exp y vs rest) x v h = cc
jump_of-some (Anf.proj_exp y t i rest) x v h = cc
jump_of-some (Anf.if_exp c t e) x v h = cc

AreKnown-extend :
    (x : Var) (K : Names) (vs : List Anf.Value) → AreKnown K vs → AreKnown (extend x K) vs
AreKnown-extend x K [] h = tt
AreKnown-extend x K (int_value i ∷ vs) (h, hs) = (tt, AreKnown-extend x K vs hs)
AreKnown-extend x K (var_value y ∷ vs) (h, hs) = (inr h, AreKnown-extend x K vs hs)
AreKnown-extend x K (glob_value y ∷ vs) (h, hs) = (tt, AreKnown-extend x K vs hs)

module _ (L : Llvm) (A N : Type 0) (B S K : Names) (w : List Anf.Exp) where
  -- A handler that binds a name, and the pipeline after it.
  bind-pipeline-Leaves :
      (x : Var) (vs : List Anf.Value) (rest : Anf.Exp) (r : Lowering (State L))
      → AreKnown (extend x K) vs
      → Leaves L A N B S (extend x K) w r
      → Leaves L A N B S (extend x K) (rest ∷ w) (bind r (λ s. lowered (pipeline L vs rest s)))
  bind-pipeline-Leaves x vs rest r k h =
      Ends-bind A N (Knows L N B S (extend x K) w) (Knows L N B S (extend x K) (rest ∷ w)) r _ h
        (λ s h. pipeline-Knows L A N B S vs rest (extend x K) w s h k)

  visit_tuple-Leaves :
      (x : Var) (vs : List Anf.Value) (s : State L)
      → Knows L N B S K w s
      → AreKnown (extend x K) vs
      → Leaves L A N B S (extend x K) w (visit_tuple L x vs s)
  visit_tuple-Leaves x vs s h ks =
      store_values-Leaves L A N B S (extend x K) w _ 0 vs _
        (named-Knows L A N B S x _ K w _ (kept L A N B S K w s _ _ h)) ks

  match_if_jump-Leaves :
      (c : Anf.Value) (t e : Anf.Exp) (j k : Option (Var × Option Anf.Value)) (s : State L)
      → jump_of t ≡ j
      → jump_of e ≡ k
      → Knows L N B S K w s
      → IsReady A B S K (Anf.if_exp c t e)
      → Leaves L A N B S K (if is_branch j k then w else e ∷ t ∷ w) (match_if_jump L c t e j k s)
  match_if_jump-Leaves c t e (some (x, u)) (some (y, v)) s p q h (r, re, rt) =
      let t_jump = jump_of-some t x u p in
      let e_jump = jump_of-some e y v q in
      let rt' : IsReady A B S K t = rw e_jump at rt in
      visit_if_jump-Leaves L A N B S K w c x y u v s h r (rw t_jump at rt') (rw e_jump at re)
  match_if_jump-Leaves c t e (some j) none s p q h (r, re, rt) =
      visit_branches-Knows L A N B S K w c t e s h r
  match_if_jump-Leaves c t e none k s p q h (r, re, rt) =
      visit_branches-Knows L A N B S K w c t e s h r

  -- What a visit leaves to visit, and the names that have a value then.
  pub visit-Leaves :
      (e : Anf.Exp) (s : State L)
      → Knows L N B S K w s
      → IsReady A B S K e
      → Leaves L A N B S (bound e K) (tasks_of e w) (visit L e s)
  unfolding visit
  visit-Leaves (Anf.halt_exp v) s h k = visit_halt-Knows L A N B S K w v s h k
  visit-Leaves (Anf.fun_exp x ps body rest) s h a = a
  visit-Leaves (Anf.join_exp x slot body rest) s h a = a
  visit-Leaves (Anf.jump_exp x v) s h r = visit_jump-Leaves L A N B S K w x v s h r
  visit-Leaves (Anf.app_exp x f vs rest) s h (k, ks, r) =
      bind-pipeline-Leaves x (var_value f ∷ vs) rest _ (inr k, AreKnown-extend x K vs ks)
        (visit_app-Leaves L A N B S K w x f vs s h k ks)
  visit-Leaves (Anf.bop_exp x bop u v rest) s h (k, l, r) =
      bind-pipeline-Leaves x (u ∷ v ∷ []) rest _ (AreKnown-extend x K (u ∷ v ∷ []) (k, (l, tt)))
        (visit_bop-Leaves L A N B S K w x bop u v s h k l)
  visit-Leaves (Anf.tuple_exp x vs rest) s h (ks, r) =
      bind-pipeline-Leaves x vs rest _ ks (visit_tuple-Leaves x vs s h ks)
  visit-Leaves (Anf.proj_exp x t i rest) s h (k, r) =
      bind-pipeline-Leaves x (var_value t ∷ []) rest _ (inr k, tt)
        (visit_proj-Leaves L A N B S K w x t i s h k)
  visit-Leaves (Anf.if_exp c t e) s h r =
      match_if_jump-Leaves c t e (jump_of t) (jump_of e) s refl refl h r
