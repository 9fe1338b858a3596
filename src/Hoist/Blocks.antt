-- ===== src/Hoist/Blocks.antt =====
-- src/hoist.cpp: what is hoisted are blocks: no function or join point is left in them, and they
-- jump to blocks of their own function only.
use lambcalc_cpp.Base.{◌≡◌, refl, ◌⊎◌, inl, inr, some, List, [], ◌∷◌, ◌++◌, Str}
use lambcalc_cpp.Anf
use lambcalc_cpp.Anf.Scoped.{IsScoped}
use lambcalc_cpp.Hoist.{Join, Function, main_fun, hoist}
use lambcalc_cpp.Hoist.Recursive.{Parts, hoist_from, functions_of, nothing}
use lambcalc_cpp.Hoist.Correct.{hoist-eq-functions_of}

abbrev pub IsJump : (Str → Type 0) → Anf.Exp → Type 0
IsJump P (Anf.jump_exp join_name slot_value) = P join_name
IsJump P _ = ⊥

-- Straight code, then a halt, a jump, or a branch to two jumps.
abbrev pub IsBlock : (Str → Type 0) → Anf.Exp → Type 0
IsBlock P (Anf.fun_exp name params body rest) = ⊥
IsBlock P (Anf.join_exp name slot body rest) = ⊥
IsBlock P (Anf.jump_exp join_name slot_value) = P join_name
IsBlock P (Anf.if_exp cond t e) = IsJump P t × IsJump P e
IsBlock P (Anf.bop_exp name bop param1 param2 rest) = IsBlock P rest
IsBlock P (Anf.app_exp name fun_name param_values rest) = IsBlock P rest
IsBlock P (Anf.tuple_exp name values rest) = IsBlock P rest
IsBlock P (Anf.proj_exp name tuple index rest) = IsBlock P rest
IsBlock P (Anf.halt_exp value) = Unit

abbrev pub AreBlocks : (Str → Type 0) → List Join → Type 0
AreBlocks P [] = Unit
AreBlocks P (j ∷ js) = IsBlock P j.body × AreBlocks P js

-- One of the join points has the name.
abbrev pub HasBlock : List Join → Str → Type 0
HasBlock [] x = ⊥
HasBlock (j ∷ js) x = (x ≡ j.name) ⊎ HasBlock js x

-- The entry block and the blocks of a function are blocks, and jump to blocks of the function.
abbrev pub IsComplete : Function → Type 0
IsComplete f =
    IsBlock (HasBlock f.blocks) f.entry_block.body × AreBlocks (HasBlock f.blocks) f.blocks

abbrev pub AreComplete : List Function → Type 0
AreComplete [] = Unit
AreComplete (f ∷ fs) = IsComplete f × AreComplete fs

AreBlocks-append :
    (P : Str → Type 0) (js ks : List Join)
    → AreBlocks P js
    → AreBlocks P ks
    → AreBlocks P (js ++ ks)
AreBlocks-append P [] ks h k = k
AreBlocks-append P (j ∷ js) ks (h, hs) k = (h, AreBlocks-append P js ks hs k)

AreComplete-append :
    (fs gs : List Function) → AreComplete fs → AreComplete gs → AreComplete (fs ++ gs)
AreComplete-append [] gs h k = k
AreComplete-append (f ∷ fs) gs (h, hs) k = (h, AreComplete-append fs gs hs k)

pub HasBlock-left : (js ks : List Join) (x : Str) → HasBlock js x → HasBlock (js ++ ks) x
HasBlock-left [] ks x h = absurd h
HasBlock-left (j ∷ js) ks x (inl e) = inl e
HasBlock-left (j ∷ js) ks x (inr h) = inr (HasBlock-left js ks x h)

pub HasBlock-right : (js ks : List Join) (x : Str) → HasBlock ks x → HasBlock (js ++ ks) x
HasBlock-right [] ks x h = h
HasBlock-right (j ∷ js) ks x h = inr (HasBlock-right js ks x h)

-- Hoisting adds join points, and takes none away.
hoist_from-HasBlock :
    (e : Anf.Exp) (s : Parts) (x : Str) → HasBlock s.joins x → HasBlock (hoist_from e s).1.joins x
unfolding hoist_from
hoist_from-HasBlock (Anf.fun_exp name params body rest) s x h = hoist_from-HasBlock rest _ x h
hoist_from-HasBlock (Anf.join_exp name slot body rest) s x h =
    hoist_from-HasBlock rest _ x
      (HasBlock-left (hoist_from body s).1.joins _ x (hoist_from-HasBlock body s x h))
hoist_from-HasBlock (Anf.if_exp cond t e) s x h =
    let s₁ = (hoist_from t s).1 in
    HasBlock-left (hoist_from e s₁).1.joins _ x
      (hoist_from-HasBlock e s₁ x (hoist_from-HasBlock t s x h))
hoist_from-HasBlock (Anf.bop_exp name bop param1 param2 rest) s x h = hoist_from-HasBlock rest s x h
hoist_from-HasBlock (Anf.app_exp name fun_name param_values rest) s x h =
    hoist_from-HasBlock rest s x h
hoist_from-HasBlock (Anf.tuple_exp name values rest) s x h = hoist_from-HasBlock rest s x h
hoist_from-HasBlock (Anf.proj_exp name tuple index rest) s x h = hoist_from-HasBlock rest s x h
hoist_from-HasBlock (Anf.halt_exp value) s x h = h
hoist_from-HasBlock (Anf.jump_exp join_name slot_value) s x h = h

-- What is left of an expression is a block, and the join points stay blocks, whose jumps go to the
-- join points around the expression and to those that are found.
hoist_from-IsBlock :
    (e : Anf.Exp) (V P : Str → Type 0) (s : Parts)
    → IsScoped V e
    → ((x : Str) → V x → P x)
    → ((x : Str) → HasBlock (hoist_from e s).1.joins x → P x)
    → AreBlocks P s.joins
    → IsBlock P (hoist_from e s).0 × AreBlocks P (hoist_from e s).1.joins
unfolding hoist_from
hoist_from-IsBlock (Anf.fun_exp name params body rest) V P s (_, h) v p k =
    hoist_from-IsBlock rest V P _ h v p k
hoist_from-IsBlock (Anf.join_exp name slot body rest) V P s (hb, hr) v p k =
    let js = (hoist_from body s).1.joins in
    let found : (x : Str) → HasBlock _ x → P x = λ x h. p x (hoist_from-HasBlock rest _ x h) in
    let (body_block, blocks) =
      hoist_from-IsBlock body V P s hb v (λ x h. found x (HasBlock-left js _ x h)) k in
    hoist_from-IsBlock rest (λ x. (x ≡ name) ⊎ V x) P _ hr
      (λ x h. elim h [ inl e ↦ found x (HasBlock-right js _ x (inl e)) | inr h ↦ v x h ]) p
      (AreBlocks-append P js _ blocks (body_block, tt))
hoist_from-IsBlock (Anf.if_exp cond t e) V P s (ht, he) v p k =
    let s₁ = (hoist_from t s).1 in
    let s₂ = (hoist_from e s₁).1 in
    let found : (x : Str) → HasBlock s₂.joins x → P x = λ x h. p x (HasBlock-left s₂.joins _ x h) in
    let (t_block, t_blocks) =
      hoist_from-IsBlock t V P s ht v (λ x h. found x (hoist_from-HasBlock e s₁ x h)) k in
    let (e_block, e_blocks) = hoist_from-IsBlock e V P s₁ he v found t_blocks in
    (
      (
        p _ (HasBlock-right s₂.joins _ _ (inl refl)),
        p _ (HasBlock-right s₂.joins _ _ (inr (inl refl))),
      ),
      AreBlocks-append P s₂.joins _ e_blocks (t_block, (e_block, tt)),
    )
hoist_from-IsBlock (Anf.bop_exp name bop param1 param2 rest) V P s h v p k =
    hoist_from-IsBlock rest V P s h v p k
hoist_from-IsBlock (Anf.app_exp name fun_name param_values rest) V P s h v p k =
    hoist_from-IsBlock rest V P s h v p k
hoist_from-IsBlock (Anf.tuple_exp name values rest) V P s h v p k =
    hoist_from-IsBlock rest V P s h v p k
hoist_from-IsBlock (Anf.proj_exp name tuple index rest) V P s h v p k =
    hoist_from-IsBlock rest V P s h v p k
hoist_from-IsBlock (Anf.halt_exp value) V P s h v p k = (tt, k)
hoist_from-IsBlock (Anf.jump_exp join_name slot_value) V P s h v p k = (v join_name h, k)

hoist_from-AreComplete :
    (e : Anf.Exp) (V : Str → Type 0) (s : Parts)
    → IsScoped V e
    → AreComplete s.functions
    → AreComplete (hoist_from e s).1.functions
unfolding hoist_from
hoist_from-AreComplete (Anf.fun_exp name params body rest) V s (hb, hr) k =
    let s₀ = record s { joins = [] } in
    let (body', s₁) = hoist_from body s₀ in
    hoist_from-AreComplete rest V _ hr (
      AreComplete-append s₁.functions _ (hoist_from-AreComplete body (λ _. ⊥) s₀ hb k) (
        hoist_from-IsBlock body (λ _. ⊥) (HasBlock s₁.joins) s₀ hb (λ x. absurd) (λ x h. h) tt,
        tt,
      ))
hoist_from-AreComplete (Anf.join_exp name slot body rest) V s (hb, hr) k =
    hoist_from-AreComplete rest (λ x. (x ≡ name) ⊎ V x) _ hr (hoist_from-AreComplete body V s hb k)
hoist_from-AreComplete (Anf.if_exp cond t e) V s (ht, he) k =
    hoist_from-AreComplete e V _ he (hoist_from-AreComplete t V s ht k)
hoist_from-AreComplete (Anf.bop_exp name bop param1 param2 rest) V s h k =
    hoist_from-AreComplete rest V s h k
hoist_from-AreComplete (Anf.app_exp name fun_name param_values rest) V s h k =
    hoist_from-AreComplete rest V s h k
hoist_from-AreComplete (Anf.tuple_exp name values rest) V s h k =
    hoist_from-AreComplete rest V s h k
hoist_from-AreComplete (Anf.proj_exp name tuple index rest) V s h k =
    hoist_from-AreComplete rest V s h k
hoist_from-AreComplete (Anf.halt_exp value) V s h k = k
hoist_from-AreComplete (Anf.jump_exp join_name slot_value) V s h k = k

-- If each jump of the program goes to a join point around it in the same function, `hoist` ends and
-- returns functions all of whose blocks, the entry block included, are free of functions and join
-- points, branch by jumps only, and jump to blocks of the same function only.
pub hoist-AreComplete :
    (exp : Anf.Exp)
    → IsScoped (λ _. ⊥) exp
    → (fs : List Function) × (hoist exp ≡ some fs) × AreComplete fs
hoist-AreComplete exp h = (
  functions_of exp,
  hoist-eq-functions_of exp,
  hoist_from-AreComplete (main_fun exp) (λ _. ⊥) nothing (h, tt) tt,
)
