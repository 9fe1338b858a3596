-- ===== src/Lower/Straight.antt =====
-- src/hoist.cpp and src/lower.cpp: straight code has no blocks of its own, and is ready to be lowered where
-- what it uses is known.
use lambcalc_cpp.Base.{◌≡◌, refl, inr, none, some, Str, arith}
use lambcalc_cpp.Anf
use lambcalc_cpp.Anf.Scoped.{IsScoped}
use lambcalc_cpp.Anf.Shape.{IsShaped}
use lambcalc_cpp.Anf.Known.{Names, extend, extend-weaken, IsKnown-weaken, AreKnown-weaken, IsClosed}
use lambcalc_cpp.Hoist.Recursive.{Parts, hoist_from}
use lambcalc_cpp.Lower.Ready.{after, IsReady}

-- What is known before an expression is known after it.
pub after-weaken : (e : Anf.Exp) (K : Names) (x : Str) → K x → after e K x
after-weaken (Anf.fun_exp name params body rest) K x k = k
after-weaken (Anf.join_exp name slot body rest) K x k = k
after-weaken (Anf.jump_exp j v) K x k = k
after-weaken (Anf.app_exp name f vs rest) K x k = after-weaken rest (extend name K) x (inr k)
after-weaken (Anf.bop_exp name bop u v rest) K x k = after-weaken rest (extend name K) x (inr k)
after-weaken (Anf.if_exp cond t e) K x k = after-weaken t (after e K) x (after-weaken e K x k)
after-weaken (Anf.tuple_exp name vs rest) K x k = after-weaken rest (extend name K) x (inr k)
after-weaken (Anf.proj_exp name t i rest) K x k = after-weaken rest (extend name K) x (inr k)
after-weaken (Anf.halt_exp v) K x k = k

-- Straight code has no blocks.
pub hoist_from-joins : (e : Anf.Exp) (s : Parts) → IsShaped 0 e → (hoist_from e s).1.joins ≡ s.joins
unfolding hoist_from
hoist_from-joins (Anf.fun_exp name params body rest) s (_, h) = hoist_from-joins rest _ h
hoist_from-joins (Anf.join_exp name none body rest) s h = absurd h
hoist_from-joins (Anf.join_exp name (some slot) body (Anf.if_exp cond t e)) s (l, _, _, _) =
    absurd (omega arith)
hoist_from-joins (Anf.join_exp name (some slot) body _) s h = absurd h
hoist_from-joins (Anf.app_exp name f vs rest) s h = hoist_from-joins rest s h
hoist_from-joins (Anf.bop_exp name bop u v rest) s h = hoist_from-joins rest s h
hoist_from-joins (Anf.tuple_exp name vs rest) s h = hoist_from-joins rest s h
hoist_from-joins (Anf.proj_exp name t i rest) s h = hoist_from-joins rest s h
hoist_from-joins (Anf.jump_exp j v) s h = refl
hoist_from-joins (Anf.halt_exp v) s h = refl
hoist_from-joins (Anf.if_exp cond t e) s h = absurd h

-- The names of blocks and of those with a slot that a function has.
module _ (B S : Names) where
  pub hoist_from-IsReady :
      (e : Anf.Exp) (K P V : Names) (s : Parts)
      → IsShaped 0 e
      → IsClosed K e
      → IsScoped V e
      → ((x : Str) → K x → P x)
      → ((x : Str) → V x → B x × S x)
      → IsReady ⊥ B S P (hoist_from e s).0
  unfolding hoist_from
  hoist_from-IsReady (Anf.fun_exp name params body rest) K P V s (_, h) (_, c) (_, v) k j =
      hoist_from-IsReady rest K P V _ h c v k j
  hoist_from-IsReady (Anf.join_exp name none body rest) K P V s h c v k j = absurd h
  hoist_from-IsReady (Anf.join_exp name (some slot) body (Anf.if_exp cond t e)) K P V s (l, _, _, _)
        c v k j =
      absurd (omega arith)
  hoist_from-IsReady (Anf.join_exp name (some slot) body _) K P V s h c v k j = absurd h
  hoist_from-IsReady (Anf.app_exp name f vs rest) K P V s h (p, q, c) v k j = (
    k f p,
    AreKnown-weaken vs K P k q,
    hoist_from-IsReady rest (extend name K) (extend name P) V s h c v (extend-weaken name K P k) j,
  )
  hoist_from-IsReady (Anf.bop_exp name bop u w rest) K P V s h (p, q, c) v k j = (
    IsKnown-weaken u K P k p,
    IsKnown-weaken w K P k q,
    hoist_from-IsReady rest (extend name K) (extend name P) V s h c v (extend-weaken name K P k) j,
  )
  hoist_from-IsReady (Anf.tuple_exp name vs rest) K P V s h (q, c) v k j = (
    AreKnown-weaken vs K (extend name P) (λ x e. inr (k x e)) q,
    hoist_from-IsReady rest (extend name K) (extend name P) V s h c v (extend-weaken name K P k) j,
  )
  hoist_from-IsReady (Anf.proj_exp name t i rest) K P V s h (p, c) v k j = (
    k t p,
    hoist_from-IsReady rest (extend name K) (extend name P) V s h c v (extend-weaken name K P k) j,
  )
  hoist_from-IsReady (Anf.jump_exp x none) K P V s h c v k j = (j x v).0
  hoist_from-IsReady (Anf.jump_exp x (some u)) K P V s h c v k j =
      let (b, m) = j x v in (b, m, IsKnown-weaken u K P k c)
  hoist_from-IsReady (Anf.halt_exp u) K P V s h c v k j = IsKnown-weaken u K P k c
  hoist_from-IsReady (Anf.if_exp cond t e) K P V s h c v k j = absurd h
