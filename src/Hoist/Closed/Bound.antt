-- ===== src/Hoist/Closed/Bound.antt =====
-- src/hoist.cpp: what the blocks of a function bind, which the expression that they are made of binds.
use lambcalc_cpp.Base.{◌⊎◌, inl, inr, Str}
use lambcalc_cpp.Anf
use lambcalc_cpp.Anf.{Var, int_value}
use lambcalc_cpp.Anf.Known.{Names}
use lambcalc_cpp.Hoist.Recursive.{Parts, hoist_from}
use lambcalc_cpp.Hoist.Closed.{IsSlot, Binds, BlocksBind, BlocksBind-left, BlocksBind-right}

-- Hoisting adds blocks, and takes none away.
hoist_from-BlocksBind :
    (e : Anf.Exp) (s : Parts) (x : Str)
    → BlocksBind s.joins x
    → BlocksBind (hoist_from e s).1.joins x
unfolding hoist_from
hoist_from-BlocksBind (Anf.fun_exp name params body rest) s x h = hoist_from-BlocksBind rest _ x h
hoist_from-BlocksBind (Anf.join_exp name slot body rest) s x h =
    hoist_from-BlocksBind rest _ x
      (BlocksBind-left (hoist_from body s).1.joins _ x (hoist_from-BlocksBind body s x h))
hoist_from-BlocksBind (Anf.if_exp cond t e) s x h =
    let s₁ = (hoist_from t s).1 in
    BlocksBind-left (hoist_from e s₁).1.joins _ x
      (hoist_from-BlocksBind e s₁ x (hoist_from-BlocksBind t s x h))
hoist_from-BlocksBind (Anf.bop_exp name bop u v rest) s x h = hoist_from-BlocksBind rest s x h
hoist_from-BlocksBind (Anf.app_exp name f vs rest) s x h = hoist_from-BlocksBind rest s x h
hoist_from-BlocksBind (Anf.tuple_exp name vs rest) s x h = hoist_from-BlocksBind rest s x h
hoist_from-BlocksBind (Anf.proj_exp name t i rest) s x h = hoist_from-BlocksBind rest s x h
hoist_from-BlocksBind (Anf.halt_exp v) s x h = h
hoist_from-BlocksBind (Anf.jump_exp j v) s x h = h

abbrev BindsHoisted : Anf.Exp → Parts → Names
BindsHoisted e s x = Binds (hoist_from e s).0 x ⊎ BlocksBind (hoist_from e s).1.joins x

-- What is bound stays bound, in what is left of the expression or in a block.
pub hoist_from-Binds : (e : Anf.Exp) (s : Parts) (x : Str) → Binds e x → BindsHoisted e s x
unfolding hoist_from
hoist_from-Binds (Anf.fun_exp name params body rest) s x h = hoist_from-Binds rest _ x h
hoist_from-Binds (Anf.join_exp name slot body rest) s x h =
    let (body', s₁) = hoist_from body s in
    let own : IsSlot slot x ⊎ (Binds body' x ⊎ ⊥)
        → BindsHoisted (Anf.join_exp name slot body rest) s x =
      λ b. inr (hoist_from-BlocksBind rest _ x (BlocksBind-right s₁.joins _ x b)) in
    elim h [
      | inl e ↦ own (inl e)
      | inr (inl b) ↦ elim (hoist_from-Binds body s x b) [
        | inl b' ↦ own (inr (inl b'))
        | inr b' ↦ inr (hoist_from-BlocksBind rest _ x (BlocksBind-left s₁.joins _ x b'))
      ]
      | inr (inr r) ↦ hoist_from-Binds rest _ x r
    ]
hoist_from-Binds (Anf.if_exp cond t e) s x h =
    let (t', s₁) = hoist_from t s in
    let (e', s₂) = hoist_from e s₁ in
    elim h [
      | inl b ↦ elim (hoist_from-Binds t s x b) [
        | inl b' ↦ inr (BlocksBind-right s₂.joins _ x (inr (inl b')))
        | inr b' ↦ inr (BlocksBind-left s₂.joins _ x (hoist_from-BlocksBind e s₁ x b'))
      ]
      | inr b ↦ elim (hoist_from-Binds e s₁ x b) [
        | inl b' ↦ inr (BlocksBind-right s₂.joins _ x (inr (inr (inr (inl b')))))
        | inr b' ↦ inr (BlocksBind-left s₂.joins _ x b')
      ]
    ]
hoist_from-Binds (Anf.bop_exp name bop u v rest) s x (inl e) = inl (inl e)
hoist_from-Binds (Anf.bop_exp name bop u v rest) s x (inr b) = elim (hoist_from-Binds rest s x b) [
  | inl b' ↦ inl (inr b')
  | inr b' ↦ inr b'
]
hoist_from-Binds (Anf.app_exp name f vs rest) s x (inl e) = inl (inl e)
hoist_from-Binds (Anf.app_exp name f vs rest) s x (inr b) = elim (hoist_from-Binds rest s x b) [
  | inl b' ↦ inl (inr b')
  | inr b' ↦ inr b'
]
hoist_from-Binds (Anf.tuple_exp name vs rest) s x (inl e) = inl (inl e)
hoist_from-Binds (Anf.tuple_exp name vs rest) s x (inr b) = elim (hoist_from-Binds rest s x b) [
  | inl b' ↦ inl (inr b')
  | inr b' ↦ inr b'
]
hoist_from-Binds (Anf.proj_exp name t i rest) s x (inl e) = inl (inl e)
hoist_from-Binds (Anf.proj_exp name t i rest) s x (inr b) = elim (hoist_from-Binds rest s x b) [
  | inl b' ↦ inl (inr b')
  | inr b' ↦ inr b'
]
hoist_from-Binds (Anf.halt_exp v) s x h = absurd h
hoist_from-Binds (Anf.jump_exp j v) s x h = absurd h
