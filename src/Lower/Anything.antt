-- ===== src/Lower/Anything.antt =====
-- src/lower.cpp: what lowering needs when null pointers are not excluded: no names, but blocks.
use lambcalc_cpp.Base.{◌⊎◌, inl, inr, Option, none, some, List, [], ◌∷◌, Str}
use lambcalc_cpp.Anf
use lambcalc_cpp.Anf.{Var, Value, int_value, var_value, glob_value}
use lambcalc_cpp.Hoist.{Join}
use lambcalc_cpp.Hoist.Blocks.{IsBlock, IsJump, AreBlocks}
use lambcalc_cpp.Anf.Known.{Names, IsKnown, AreKnown, extend_slot, extend_all}
use lambcalc_cpp.Lower.Ready.{after, IsReady}
use lambcalc_cpp.Lower.Functions.{AreOrdered}

abbrev pub anything : Names
anything x = Unit

IsKnown-any : (K : Names) → ((x : Str) → K x) → (v : Value) → IsKnown K v
IsKnown-any K k (int_value i) = tt
IsKnown-any K k (var_value x) = k x
IsKnown-any K k (glob_value x) = tt

AreKnown-any : (K : Names) → ((x : Str) → K x) → (vs : List Value) → AreKnown K vs
AreKnown-any K k [] = tt
AreKnown-any K k (v ∷ vs) = (IsKnown-any K k v, AreKnown-any K k vs)

pub after-any : (e : Anf.Exp) (K : Names) → ((x : Str) → K x) → (x : Str) → after e K x
after-any (Anf.halt_exp v) K k x = k x
after-any (Anf.fun_exp f ps body rest) K k x = k x
after-any (Anf.join_exp j slot body rest) K k x = k x
after-any (Anf.jump_exp j v) K k x = k x
after-any (Anf.app_exp y f vs rest) K k x = after-any rest _ (λ z. inr (k z)) x
after-any (Anf.bop_exp y bop u v rest) K k x = after-any rest _ (λ z. inr (k z)) x
after-any (Anf.tuple_exp y vs rest) K k x = after-any rest _ (λ z. inr (k z)) x
after-any (Anf.proj_exp y t i rest) K k x = after-any rest _ (λ z. inr (k z)) x
after-any (Anf.if_exp c t e) K k x = after-any t _ (λ z. after-any e K k z) x

extend_slot-any :
    (slot : Option Var) (K : Names) → ((x : Str) → K x) → (x : Str) → extend_slot slot K x
extend_slot-any none K k x = k x
extend_slot-any (some y) K k x = inr (k x)

pub extend_all-any : (xs : List Var) (K : Names) → ((x : Str) → K x) → (x : Str) → extend_all xs K x
extend_all-any [] K k x = k x
extend_all-any (y ∷ xs) K k x = extend_all-any xs _ (λ z. inr (k z)) x

-- `P` is what the jumps go to.
module _ (A : Type 0) (P : Names) where
  IsJump-IsBlock : (e : Anf.Exp) → IsJump P e → IsBlock P e
  IsJump-IsBlock (Anf.jump_exp j v) h = h
  IsJump-IsBlock (Anf.halt_exp v) h = absurd h
  IsJump-IsBlock (Anf.fun_exp f ps body rest) h = absurd h
  IsJump-IsBlock (Anf.join_exp j slot body rest) h = absurd h
  IsJump-IsBlock (Anf.app_exp y f vs rest) h = absurd h
  IsJump-IsBlock (Anf.bop_exp y bop u v rest) h = absurd h
  IsJump-IsBlock (Anf.tuple_exp y vs rest) h = absurd h
  IsJump-IsBlock (Anf.proj_exp y t i rest) h = absurd h
  IsJump-IsBlock (Anf.if_exp c t e) h = absurd h

  -- Where every name has a value, only functions and join points are in the way.
  pub IsReady-any :
      (e : Anf.Exp) (K : Names)
      → ((x : Str) → K x)
      → A ⊎ IsBlock P e
      → IsReady A anything anything K e
  IsReady-any (Anf.halt_exp v) K k h = IsKnown-any K k v
  IsReady-any (Anf.fun_exp f ps body rest) K k (inl a) = a
  IsReady-any (Anf.fun_exp f ps body rest) K k (inr h) = absurd h
  IsReady-any (Anf.join_exp j slot body rest) K k (inl a) = a
  IsReady-any (Anf.join_exp j slot body rest) K k (inr h) = absurd h
  IsReady-any (Anf.jump_exp j none) K k h = tt
  IsReady-any (Anf.jump_exp j (some v)) K k h = (tt, tt, IsKnown-any K k v)
  IsReady-any (Anf.app_exp y f vs rest) K k h =
      (k f, AreKnown-any K k vs, IsReady-any rest _ (λ x. inr (k x)) h)
  IsReady-any (Anf.bop_exp y bop u v rest) K k h =
      (IsKnown-any K k u, IsKnown-any K k v, IsReady-any rest _ (λ x. inr (k x)) h)
  IsReady-any (Anf.tuple_exp y vs rest) K k h =
      (AreKnown-any _ (λ x. inr (k x)) vs, IsReady-any rest _ (λ x. inr (k x)) h)
  IsReady-any (Anf.proj_exp y t i rest) K k h = (k t, IsReady-any rest _ (λ x. inr (k x)) h)
  IsReady-any (Anf.if_exp c t e) K k (inl a) =
      (IsKnown-any K k c, IsReady-any e K k (inl a), IsReady-any t _ (after-any e K k) (inl a))
  IsReady-any (Anf.if_exp c t e) K k (inr (ht, he)) = (
    IsKnown-any K k c,
    IsReady-any e K k (inr (IsJump-IsBlock e he)),
    IsReady-any t _ (after-any e K k) (inr (IsJump-IsBlock t ht)),
  )

  pub AreOrdered-any :
      (js : List Join) (K : Names)
      → ((x : Str) → K x)
      → A ⊎ AreBlocks P js
      → AreOrdered A anything anything K js
  AreOrdered-any [] K k h = tt
  AreOrdered-any (j ∷ js) K k (inl a) = (
    IsReady-any j.body _ (extend_slot-any j.slot K k) (inl a),
    AreOrdered-any js _ (after-any j.body _ (extend_slot-any j.slot K k)) (inl a),
  )
  AreOrdered-any (j ∷ js) K k (inr (h, hs)) = (
    IsReady-any j.body _ (extend_slot-any j.slot K k) (inr h),
    AreOrdered-any js _ (after-any j.body _ (extend_slot-any j.slot K k)) (inr hs),
  )
