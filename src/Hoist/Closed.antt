-- ===== src/Hoist/Closed.antt =====
-- src/hoist.cpp: a hoisted function uses its parameters and what its own blocks bind.
pub mod Bound
pub mod Blocks
use lambcalc_cpp.Base.{◌≡◌, refl, ◌⊎◌, inl, inr, Option, none, some, List, [], ◌∷◌, ◌++◌, Str}
use lambcalc_cpp.Anf
use lambcalc_cpp.Anf.{Var, int_value}
use lambcalc_cpp.Anf.Known.{
  Names, extend, extend_all, extend_slot, IsKnown-weaken, AreKnown-weaken, IsClosed,
  IsClosed-weaken,
}
use lambcalc_cpp.Hoist.{Join, Function, main_fun}
use lambcalc_cpp.Hoist.Recursive.{Parts, hoist_from, functions_of, nothing}

abbrev IsSlot : Option Var → Names
IsSlot none x = ⊥
IsSlot (some y) x = x ≡ y

-- The variables that are bound in the expression, functions in it left aside.
abbrev pub Binds : Anf.Exp → Names
Binds (Anf.fun_exp name params body rest) x = Binds rest x
Binds (Anf.join_exp name slot body rest) x = IsSlot slot x ⊎ (Binds body x ⊎ Binds rest x)
Binds (Anf.jump_exp join_name slot_value) x = ⊥
Binds (Anf.app_exp name fun_name param_values rest) x = (x ≡ name) ⊎ Binds rest x
Binds (Anf.bop_exp name bop param1 param2 rest) x = (x ≡ name) ⊎ Binds rest x
Binds (Anf.if_exp cond t e) x = Binds t x ⊎ Binds e x
Binds (Anf.tuple_exp name values rest) x = (x ≡ name) ⊎ Binds rest x
Binds (Anf.proj_exp name tuple index rest) x = (x ≡ name) ⊎ Binds rest x
Binds (Anf.halt_exp value) x = ⊥

-- The slots of blocks, and what is bound in them.
abbrev pub BlocksBind : List Join → Names
BlocksBind [] x = ⊥
BlocksBind (j ∷ js) x = IsSlot j.slot x ⊎ (Binds j.body x ⊎ BlocksBind js x)

abbrev pub AreClosed : Names → List Join → Type 0
AreClosed P [] = Unit
AreClosed P (j ∷ js) = IsClosed P j.body × AreClosed P js

-- The parameters of a function, and what its blocks bind.
abbrev pub Locals : Function → Names
Locals f x = extend_all f.params (λ y. ⊥) x ⊎ (Binds f.entry_block.body x ⊎ BlocksBind f.blocks x)

-- No block of the function uses another variable.
abbrev pub IsSelfContained : Function → Type 0
IsSelfContained f = IsClosed (Locals f) f.entry_block.body × AreClosed (Locals f) f.blocks

abbrev pub AreSelfContained : List Function → Type 0
AreSelfContained [] = Unit
AreSelfContained (f ∷ fs) = IsSelfContained f × AreSelfContained fs

AreClosed-append :
    (P : Names) (js ks : List Join) → AreClosed P js → AreClosed P ks → AreClosed P (js ++ ks)
AreClosed-append P [] ks h k = k
AreClosed-append P (j ∷ js) ks (h, hs) k = (h, AreClosed-append P js ks hs k)

AreSelfContained-append :
    (fs gs : List Function)
    → AreSelfContained fs
    → AreSelfContained gs
    → AreSelfContained (fs ++ gs)
AreSelfContained-append [] gs h k = k
AreSelfContained-append (f ∷ fs) gs (h, hs) k = (h, AreSelfContained-append fs gs hs k)

BlocksBind-left : (js ks : List Join) (x : Str) → BlocksBind js x → BlocksBind (js ++ ks) x
BlocksBind-left [] ks x h = absurd h
BlocksBind-left (j ∷ js) ks x (inl e) = inl e
BlocksBind-left (j ∷ js) ks x (inr (inl b)) = inr (inl b)
BlocksBind-left (j ∷ js) ks x (inr (inr h)) = inr (inr (BlocksBind-left js ks x h))

BlocksBind-right : (js ks : List Join) (x : Str) → BlocksBind ks x → BlocksBind (js ++ ks) x
BlocksBind-right [] ks x h = h
BlocksBind-right (j ∷ js) ks x h = inr (inr (BlocksBind-right js ks x h))
