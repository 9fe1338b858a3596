-- ===== src/Hoist/Closed/Blocks.antt =====
-- src/hoist.cpp: the variables that the blocks of a function use.
use lambcalc_cpp.Base.{refl, inl, inr, Option, none, some, [], Str}
use lambcalc_cpp.Anf
use lambcalc_cpp.Anf.{Var, int_value}
use lambcalc_cpp.Anf.Known.{
  Names, extend, extend_all, extend_slot, IsKnown-weaken, AreKnown-weaken, IsClosed,
  IsClosed-weaken,
}
use lambcalc_cpp.Hoist.{main_fun}
use lambcalc_cpp.Hoist.Recursive.{Parts, hoist_from, functions_of, nothing}
use lambcalc_cpp.Hoist.Closed.{
  IsSlot, Binds, AreClosed, AreSelfContained, AreClosed-append, AreSelfContained-append,
}
use lambcalc_cpp.Hoist.Closed.Bound.{hoist_from-Binds}

-- What is known at a node is local, and so is what is bound below it.
abbrev AreLocal : Names → Names → Type 0
AreLocal K P = (x : Str) → K x → P x

extend_slot-AreLocal :
    (slot : Option Var) (K P : Names)
    → AreLocal K P
    → AreLocal (IsSlot slot) P
    → AreLocal (extend_slot slot K) P
extend_slot-AreLocal none K P h k x e = h x e
extend_slot-AreLocal (some y) K P h k x (inl e) = k x e
extend_slot-AreLocal (some y) K P h k x (inr e) = h x e

extend-AreLocal : (y : Var) (K P : Names) → AreLocal K P → P y → AreLocal (extend y K) P
extend-AreLocal y K P h p x (inl e) = rw (e) p
extend-AreLocal y K P h p x (inr k) = h x k

hoist_from-IsClosed :
    (e : Anf.Exp) (K P : Names) (s : Parts)
    → IsClosed K e
    → AreLocal K P
    → AreLocal (Binds e) P
    → AreClosed P s.joins
    → IsClosed P (hoist_from e s).0 × AreClosed P (hoist_from e s).1.joins
unfolding hoist_from
hoist_from-IsClosed (Anf.fun_exp name params body rest) K P s (_, r) k b c =
    hoist_from-IsClosed rest K P _ r k b c
hoist_from-IsClosed (Anf.join_exp name slot body rest) K P s (hb, r) k b c =
    let (body', s₁) = hoist_from body s in
    let (body_closed, closed) =
      hoist_from-IsClosed body (extend_slot slot K) P s hb
        (extend_slot-AreLocal slot K P k (λ x e. b x (inl e))) (λ x e. b x (inr (inl e))) c in
    hoist_from-IsClosed rest K P _ r k (λ x e. b x (inr (inr e)))
      (AreClosed-append P s₁.joins _ closed (body_closed, tt))
hoist_from-IsClosed (Anf.if_exp cond t e) K P s (v, ht, he) k b c =
    let s₁ = (hoist_from t s).1 in
    let s₂ = (hoist_from e s₁).1 in
    let (t_closed, closed₁) = hoist_from-IsClosed t K P s ht k (λ x e. b x (inl e)) c in
    let (e_closed, closed₂) = hoist_from-IsClosed e K P s₁ he k (λ x e. b x (inr e)) closed₁ in
    (
      (IsKnown-weaken cond K P k v, tt, tt),
      AreClosed-append P s₂.joins _ closed₂ (t_closed, (e_closed, tt)),
    )
hoist_from-IsClosed (Anf.bop_exp name bop u v rest) K P s (p, q, r) k b c =
    let (closed, blocks) =
      hoist_from-IsClosed rest (extend name K) P s r
        (extend-AreLocal name K P k (b name (inl refl))) (λ x e. b x (inr e)) c in
    (
      (
        IsKnown-weaken u K P k p,
        IsKnown-weaken v K P k q,
        IsClosed-weaken _ P (extend name P) (λ x p. inr p) closed,
      ),
      blocks,
    )
hoist_from-IsClosed (Anf.app_exp name f vs rest) K P s (p, q, r) k b c =
    let (closed, blocks) =
      hoist_from-IsClosed rest (extend name K) P s r
        (extend-AreLocal name K P k (b name (inl refl))) (λ x e. b x (inr e)) c in
    (
      (
        k f p,
        AreKnown-weaken vs K P k q,
        IsClosed-weaken _ P (extend name P) (λ x p. inr p) closed,
      ),
      blocks,
    )
hoist_from-IsClosed (Anf.tuple_exp name vs rest) K P s (q, r) k b c =
    let (closed, blocks) =
      hoist_from-IsClosed rest (extend name K) P s r
        (extend-AreLocal name K P k (b name (inl refl))) (λ x e. b x (inr e)) c in
    (
      (AreKnown-weaken vs K P k q, IsClosed-weaken _ P (extend name P) (λ x p. inr p) closed),
      blocks,
    )
hoist_from-IsClosed (Anf.proj_exp name t i rest) K P s (p, r) k b c =
    let (closed, blocks) =
      hoist_from-IsClosed rest (extend name K) P s r
        (extend-AreLocal name K P k (b name (inl refl))) (λ x e. b x (inr e)) c in
    ((k t p, IsClosed-weaken _ P (extend name P) (λ x p. inr p) closed), blocks)
hoist_from-IsClosed (Anf.halt_exp v) K P s h k b c = (IsKnown-weaken v K P k h, c)
hoist_from-IsClosed (Anf.jump_exp j none) K P s h k b c = (tt, c)
hoist_from-IsClosed (Anf.jump_exp j (some v)) K P s h k b c = (IsKnown-weaken v K P k h, c)

hoist_from-AreSelfContained :
    (e : Anf.Exp) (K : Names) (s : Parts)
    → IsClosed K e
    → AreSelfContained s.functions
    → AreSelfContained (hoist_from e s).1.functions
unfolding hoist_from
hoist_from-AreSelfContained (Anf.fun_exp name params body rest) K s (b, r) k =
    let s₀ = record s { joins = [] } in
    let (body', s₁) = hoist_from body s₀ in
    let own = extend_all params (λ x. ⊥) in
    hoist_from-AreSelfContained rest K _ r (
      AreSelfContained-append s₁.functions _ (hoist_from-AreSelfContained body own s₀ b k) (
        hoist_from-IsClosed body own _ s₀ b (λ x e. inl e)
            (λ x e. inr (hoist_from-Binds body s₀ x e)) tt,
        tt,
      ))
hoist_from-AreSelfContained (Anf.join_exp name slot body rest) K s (b, r) k =
    hoist_from-AreSelfContained rest K _ r
      (hoist_from-AreSelfContained body (extend_slot slot K) s b k)
hoist_from-AreSelfContained (Anf.if_exp cond t e) K s (v, ht, he) k =
    hoist_from-AreSelfContained e K _ he (hoist_from-AreSelfContained t K s ht k)
hoist_from-AreSelfContained (Anf.bop_exp name bop u v rest) K s (_, _, r) k =
    hoist_from-AreSelfContained rest (extend name K) s r k
hoist_from-AreSelfContained (Anf.app_exp name f vs rest) K s (_, _, r) k =
    hoist_from-AreSelfContained rest (extend name K) s r k
hoist_from-AreSelfContained (Anf.tuple_exp name vs rest) K s (_, r) k =
    hoist_from-AreSelfContained rest (extend name K) s r k
hoist_from-AreSelfContained (Anf.proj_exp name t i rest) K s (_, r) k =
    hoist_from-AreSelfContained rest (extend name K) s r k
hoist_from-AreSelfContained (Anf.halt_exp v) K s h k = k
hoist_from-AreSelfContained (Anf.jump_exp j v) K s h k = k

-- If a program has no free variable, and the body of each function in it uses only the function's
-- parameters and what it binds, so does each function that is hoisted.
pub functions_of-AreSelfContained :
    (exp : Anf.Exp) → IsClosed (λ x. ⊥) exp → AreSelfContained (functions_of exp)
functions_of-AreSelfContained exp h =
    hoist_from-AreSelfContained (main_fun exp) (λ x. ⊥) nothing (h, tt) tt
