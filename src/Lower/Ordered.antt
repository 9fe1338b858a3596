-- ===== src/Lower/Ordered.antt =====
-- src/hoist.cpp and src/lower.cpp: functions with at most one conditional in their body are hoisted to
-- blocks that are lowered in an order in which names are bound before they are used.
use lambcalc_cpp.Base.{ℕ, ◌≡◌, refl, ◌∙◌, ap, ◌⊎◌, inl, inr, none, some, List, [], ◌∷◌, ◌++◌, Str}
use lambcalc_cpp.Anf
use lambcalc_cpp.Anf.Scoped.{IsScoped}
use lambcalc_cpp.Anf.Shape.{IsShaped}
use lambcalc_cpp.Anf.Known.{
  Names, extend, extend_all, extend-weaken, IsKnown-weaken, AreKnown-weaken, IsClosed,
}
use lambcalc_cpp.Hoist.{Join, Function, main_fun}
use lambcalc_cpp.Hoist.Blocks.{HasBlock, HasBlock-left, HasBlock-right}
use lambcalc_cpp.Hoist.Recursive.{
  Parts, hoist_from, functions_of, nothing, with_join, then_name, else_name,
}
use lambcalc_cpp.Lower.Straight.{after-weaken, hoist_from-joins, hoist_from-IsReady}
use lambcalc_cpp.Lower.Ready.{after, IsReady}
use lambcalc_cpp.Lower.Functions.{HasSlot, AreOrdered, IsOrdered}

abbrev pub AreAllOrdered : List Function → Type 0
AreAllOrdered [] = Unit
AreAllOrdered (f ∷ fs) = IsOrdered f × AreAllOrdered fs

AreAllOrdered-append :
    (fs gs : List Function) → AreAllOrdered fs → AreAllOrdered gs → AreAllOrdered (fs ++ gs)
AreAllOrdered-append [] gs h k = k
AreAllOrdered-append (f ∷ fs) gs (h, hs) k = (h, AreAllOrdered-append fs gs hs k)

HasSlot-left : (js ks : List Join) (x : Str) → HasSlot js x → HasSlot (js ++ ks) x
HasSlot-left [] ks x h = absurd h
HasSlot-left (j ∷ js) ks x (inl e) = inl e
HasSlot-left (j ∷ js) ks x (inr h) = inr (HasSlot-left js ks x h)

module _ (B S : Names) where
  -- The block and the blocks that are left of an expression are ordered when they are lowered where `P`
  -- is known.
  abbrev IsOrderedFrom : Names → Anf.Exp × Parts → Type 0
  IsOrderedFrom P r = IsReady ⊥ B S P r.0 × AreOrdered ⊥ B S (after r.0 P) r.1.joins

  branch_blocks :
      (n x : Str) (body t e : Anf.Exp) (t_name e_name : Str) (P : Names) (js : List Join)
      → js ≡ record { name = n; slot = some x; body = body } ∷ []
      → IsReady ⊥ B S (extend x P) body
      → ((Q : Names) → ((y : Str) → P y → Q y) → IsReady ⊥ B S Q t)
      → ((Q : Names) → ((y : Str) → P y → Q y) → IsReady ⊥ B S Q e)
      → AreOrdered ⊥ B S P (
          js
          ++ record { name = t_name; slot = none; body = t }
            ∷ record { name = e_name; slot = none; body = e }
            ∷ [])
  branch_blocks n x body t e t_name e_name P js same b rt re =
      let P' = after body (extend x P) in
      let grows : (y : Str) → P y → P' y = λ y p. after-weaken body (extend x P) y (inr p) in
      rw (same) (b, (rt P' grows, (re (after t P') (λ y p. after-weaken t P' y (grows y p)), tt)))

  -- A join point and the branch to it.
  join-IsOrderedFrom :
      (n x : Str) (body t e : Anf.Exp) (cond : Anf.Value) (K P V : Names) (s : Parts)
      → IsShaped 1 (Anf.join_exp n (some x) body (Anf.if_exp cond t e))
      → IsClosed K (Anf.join_exp n (some x) body (Anf.if_exp cond t e))
      → IsScoped V (Anf.join_exp n (some x) body (Anf.if_exp cond t e))
      → ((x : Str) → K x → P x)
      → ((x : Str) → V x → B x × S x)
      → s.joins ≡ []
      → let r = hoist_from (Anf.join_exp n (some x) body (Anf.if_exp cond t e)) s in
        ((y : Str) → HasBlock r.1.joins y → B y)
        → ((y : Str) → HasSlot r.1.joins y → S y)
        → IsOrderedFrom P r
  unfolding hoist_from
  join-IsOrderedFrom n x body t e cond K P V s (_, hb, ht, he) (cb, (cv, ct, ce)) (vb, (vt, ve)) k j
        none_yet blocks slots =
      let (body', s₁) = hoist_from body s in
      let s₂ = with_join n (some x) body' s₁ in
      let (t', s₃) = hoist_from t s₂ in
      let (e', s₄) = hoist_from e s₃ in
      let one : s₄.joins ≡ record { name = n; slot = some x; body = body' } ∷ [] =
        hoist_from-joins e s₃ he
        ∙ hoist_from-joins t s₂ ht
        ∙ ap (λ js. js ++ record { name = n; slot = some x; body = body' } ∷ [])
            (hoist_from-joins body s hb ∙ none_yet) in
      let j' : (y : Str) → (y ≡ n) ⊎ V y → B y × S y = λ y v. elim v [
        | inl q ↦ (
          blocks y (HasBlock-left s₄.joins _ y (rw (one) (inl q))),
          slots y (HasSlot-left s₄.joins _ y (rw (one) (inl q))),
        )
        | inr v ↦ j y v
      ] in
      (
        (
          IsKnown-weaken cond K P k cv,
          blocks _ (HasBlock-right s₄.joins _ _ (inr (inl refl))),
          blocks _ (HasBlock-right s₄.joins _ _ (inl refl)),
        ),
        branch_blocks n x body' t' e' (then_name s₄) (else_name s₄) P s₄.joins one
            (hoist_from-IsReady B S body (extend x K) (extend x P) V s hb cb vb
              (extend-weaken x K P k) j)
            (λ Q q. hoist_from-IsReady B S t K Q _ s₂ ht ct vt (λ y p. q y (k y p)) j')
            (λ Q q. hoist_from-IsReady B S e K Q _ s₃ he ce ve (λ y p. q y (k y p)) j'),
      )

  hoist_from-IsOrderedFrom :
      (e : Anf.Exp) (K P V : Names) (s : Parts)
      → IsShaped 1 e
      → IsClosed K e
      → IsScoped V e
      → ((x : Str) → K x → P x)
      → ((x : Str) → V x → B x × S x)
      → s.joins ≡ []
      → ((y : Str) → HasBlock (hoist_from e s).1.joins y → B y)
      → ((y : Str) → HasSlot (hoist_from e s).1.joins y → S y)
      → IsOrderedFrom P (hoist_from e s)
  unfolding hoist_from
  hoist_from-IsOrderedFrom (Anf.fun_exp name params body rest) K P V s (_, h) (_, c) (_, v) k j n b
        m =
      hoist_from-IsOrderedFrom rest K P V _ h c v k j n b m
  hoist_from-IsOrderedFrom (Anf.join_exp name none body rest) K P V s h c v k j n b m = absurd h
  hoist_from-IsOrderedFrom (Anf.join_exp name (some slot) body (Anf.if_exp cond t e)) K P V s h c v
        k j n b m =
      join-IsOrderedFrom name slot body t e cond K P V s h c v k j n b m
  hoist_from-IsOrderedFrom (Anf.join_exp name (some slot) body _) K P V s h c v k j n b m = absurd h
  hoist_from-IsOrderedFrom (Anf.app_exp name f vs rest) K P V s h (p, q, c) v k j n b m =
      let (r, o) =
        hoist_from-IsOrderedFrom rest (extend name K) (extend name P) V s h c v
          (extend-weaken name K P k) j n b m in
      ((k f p, AreKnown-weaken vs K P k q, r), o)
  hoist_from-IsOrderedFrom (Anf.bop_exp name bop u w rest) K P V s h (p, q, c) v k j n b m =
      let (r, o) =
        hoist_from-IsOrderedFrom rest (extend name K) (extend name P) V s h c v
          (extend-weaken name K P k) j n b m in
      ((IsKnown-weaken u K P k p, IsKnown-weaken w K P k q, r), o)
  hoist_from-IsOrderedFrom (Anf.tuple_exp name vs rest) K P V s h (q, c) v k j n b m =
      let (r, o) =
        hoist_from-IsOrderedFrom rest (extend name K) (extend name P) V s h c v
          (extend-weaken name K P k) j n b m in
      ((AreKnown-weaken vs K (extend name P) (λ x e. inr (k x e)) q, r), o)
  hoist_from-IsOrderedFrom (Anf.proj_exp name t i rest) K P V s h (p, c) v k j n b m =
      let (r, o) =
        hoist_from-IsOrderedFrom rest (extend name K) (extend name P) V s h c v
          (extend-weaken name K P k) j n b m in
      ((k t p, r), o)
  hoist_from-IsOrderedFrom (Anf.jump_exp x none) K P V s h c v k j n b m = ((j x v).0, rw (n) tt)
  hoist_from-IsOrderedFrom (Anf.jump_exp x (some u)) K P V s h c v k j n b m =
      let (p, q) = j x v in ((p, q, IsKnown-weaken u K P k c), rw (n) tt)
  hoist_from-IsOrderedFrom (Anf.halt_exp u) K P V s h c v k j n b m =
      (IsKnown-weaken u K P k c, rw (n) tt)
  hoist_from-IsOrderedFrom (Anf.if_exp cond t e) K P V s h c v k j n b m = absurd h

hoist_from-AreAllOrdered :
    (e : Anf.Exp) (r : ℕ) (K V : Names) (s : Parts)
    → IsShaped r e
    → IsClosed K e
    → IsScoped V e
    → AreAllOrdered s.functions
    → AreAllOrdered (hoist_from e s).1.functions
unfolding hoist_from
hoist_from-AreAllOrdered (Anf.fun_exp name params body rest) r K V s (hb, h) (cb, c) (vb, v) o =
    let s₀ = record s { joins = [] } in
    let (body', s₁) = hoist_from body s₀ in
    let own = extend_all params (λ x. ⊥) in
    hoist_from-AreAllOrdered rest r K V _ h c v (
      AreAllOrdered-append s₁.functions _
        (hoist_from-AreAllOrdered body 1 own (λ x. ⊥) s₀ hb cb vb o)
        (
          hoist_from-IsOrderedFrom (HasBlock s₁.joins) (HasSlot s₁.joins) body own own (λ x. ⊥) s₀
              hb cb vb (λ x k. k) (λ x. absurd) refl (λ y b. b) (λ y m. m),
          tt,
        ))
hoist_from-AreAllOrdered (Anf.join_exp name none body rest) r K V s h c v o = absurd h
hoist_from-AreAllOrdered (Anf.join_exp name (some x) body (Anf.if_exp cond t e)) r K V s
      (_, hb, ht, he) (cb, (_, ct, ce)) (vb, (vt, ve)) o =
    hoist_from-AreAllOrdered e 0 K _ _ he ce ve (
      hoist_from-AreAllOrdered t 0 K _ _ ht ct vt
        (hoist_from-AreAllOrdered body 0 (extend x K) V s hb cb vb o))
hoist_from-AreAllOrdered (Anf.join_exp name (some x) body _) r K V s h c v o = absurd h
hoist_from-AreAllOrdered (Anf.app_exp name f vs rest) r K V s h (_, _, c) v o =
    hoist_from-AreAllOrdered rest r (extend name K) V s h c v o
hoist_from-AreAllOrdered (Anf.bop_exp name bop u w rest) r K V s h (_, _, c) v o =
    hoist_from-AreAllOrdered rest r (extend name K) V s h c v o
hoist_from-AreAllOrdered (Anf.tuple_exp name vs rest) r K V s h (_, c) v o =
    hoist_from-AreAllOrdered rest r (extend name K) V s h c v o
hoist_from-AreAllOrdered (Anf.proj_exp name t i rest) r K V s h (_, c) v o =
    hoist_from-AreAllOrdered rest r (extend name K) V s h c v o
hoist_from-AreAllOrdered (Anf.jump_exp x u) r K V s h c v o = o
hoist_from-AreAllOrdered (Anf.halt_exp u) r K V s h c v o = o
hoist_from-AreAllOrdered (Anf.if_exp cond t e) r K V s h c v o = absurd h

-- The functions of a program of this shape are lowered in order.
pub functions_of-AreAllOrdered :
    (exp : Anf.Exp)
    → IsShaped 1 exp
    → IsClosed (λ x. ⊥) exp
    → IsScoped (λ x. ⊥) exp
    → AreAllOrdered (functions_of exp)
functions_of-AreAllOrdered exp h c v =
    hoist_from-AreAllOrdered (main_fun exp) 1 (λ x. ⊥) (λ x. ⊥) nothing (h, tt) (c, tt) (v, tt) tt
