-- ===== src/Lower/Handlers.antt =====
-- src/lower.cpp: the handlers of the visitor, where the maps have what the expression needs.
use lambcalc_cpp.Base.{ℕ, suc, ap, Option, none, some, List, [], ◌∷◌}
use lambcalc_cpp.Ast.{Bop}
use lambcalc_cpp.Anf
use lambcalc_cpp.Anf.{Var, int_value, var_value, glob_value}
use lambcalc_cpp.Anf.Known.{Names, extend, IsKnown, AreKnown}
use lambcalc_cpp.Lower.Library.{Llvm}
use lambcalc_cpp.Lower.{lookup, State}
use lambcalc_cpp.Lower.Visitor.{
  visit_halt, store_slot_value, visit_jump, call, visit_app, visit_bop, store_values, visit_proj,
  store_condition, visit_if_jump, visit_branches,
}
use lambcalc_cpp.Lower.Ready.{IsReady, Ends, Ends-bind, Has, Has-any, Ends-deref}
use lambcalc_cpp.Lower.Values.{
  Knows, Leaves, named-Knows, kept, visit_value-Knows, visit_values-Knows, Ends-derefs,
  store_at-Leaves,
}

module _ (L : Llvm) (A N : Type 0) (B S K : Names) (w : List Anf.Exp) where
  pub visit_halt-Knows :
      (v : Anf.Value) (s : State L)
      → Knows L N B S K w s
      → IsKnown K v
      → Knows L N B S K w (visit_halt L v s)
  visit_halt-Knows v s h k = kept L A N B S K w _ _ _ (visit_value-Knows L A N B S v K w s h k).0

  IsSlot : Var → Option Anf.Value → Type 0
  IsSlot x none = Unit
  IsSlot x (some v) = S x × IsKnown K v

  pub visit_jump-Leaves :
      (x : Var) (v : Option Anf.Value) (s : State L)
      → Knows L N B S K w s
      → IsReady A B S K (Anf.jump_exp x v)
      → Leaves L A N B S K w (visit_jump L x v s)
  visit_jump-Leaves x none s h b =
      Ends-deref A N (Knows L N B S K w) (lookup x s.named_blocks) _ (h.blocks x b)
        (λ p. kept L A N B S K w s _ _ h)
  visit_jump-Leaves x (some v) s h (b, m, k) =
      let (h1, a) = visit_value-Knows L A N B S v K w s h k in
      Ends-bind A N (Knows L N B S K w) (Knows L N B S K w) (store_slot_value L x (some v) s) _
        (store_at-Leaves L A N B S _ K w _ h1 a (h.slots x m))
        (λ s₁ h2.
          Ends-deref A N (Knows L N B S K w) (lookup x s.named_blocks) _ (h.blocks x b)
            (λ p. kept L A N B S K w s₁ _ _ h2))

  call-Leaves :
      (x : Var) (vs : List Anf.Value) (ps : List L.Value) (o : Option L.Value) (f : Var)
      (s : State L)
      → Knows L N B S K w s
      → Has N o
      → Leaves L A N B S (extend x K) w (call L x vs ps o f s)
  call-Leaves x vs ps (some p) f s h k =
      named-Knows L A N B S x _ K w _ (kept L A N B S K w s _ _ h)
  call-Leaves x vs ps none f s h n =
      Ends-deref A N (Knows L N B S (extend x K) w) (L.get_function f s.ir) _ (Has-any N _ n)
        (λ fn. named-Knows L A N B S x _ K w _ (kept L A N B S K w s _ _ h))

  pub visit_app-Leaves :
      (x f : Var) (vs : List Anf.Value) (s : State L)
      → Knows L N B S K w s
      → K f
      → AreKnown K vs
      → Leaves L A N B S (extend x K) w (visit_app L x f vs s)
  visit_app-Leaves x f vs s h k ks =
      let (h1, os) = visit_values-Knows L A N B S vs K w s h ks in
      Ends-derefs L A N B S (Knows L N B S (extend x K) w) _ _ os
        (λ ps. call-Leaves x vs ps _ f _ h1 (h1.values f k))

  pub visit_bop-Leaves :
      (x : Var) (bop : Bop) (u v : Anf.Value) (s : State L)
      → Knows L N B S K w s
      → IsKnown K u
      → IsKnown K v
      → Leaves L A N B S (extend x K) w (visit_bop L x bop u v s)
  visit_bop-Leaves x bop u v s h k l =
      let (h1, a) = visit_value-Knows L A N B S u K w s h k in
      let (h2, b) = visit_value-Knows L A N B S v K w _ h1 l in
      Ends-deref A N (Knows L N B S (extend x K) w) _ _ a (λ p.
        Ends-deref A N (Knows L N B S (extend x K) w) _ _ b
          (λ q. named-Knows L A N B S x _ K w _ (kept L A N B S K w _ _ _ h2)))

  pub store_values-Leaves :
      (ptr : L.Value) (i : ℕ) (vs : List Anf.Value) (s : State L)
      → Knows L N B S K w s
      → AreKnown K vs
      → Leaves L A N B S K w (store_values L ptr i vs s)
  unfolding store_values
  store_values-Leaves ptr i [] s h ks = h
  store_values-Leaves ptr i (v ∷ vs) s h (k, ks) =
      let (h1, a) = visit_value-Knows L A N B S v K w _ (kept L A N B S K w s _ _ h) k in
      Ends-bind A N (Knows L N B S K w) (Knows L N B S K w) _ _
        (store_at-Leaves L A N B S (some _) K w _ h1 a tt)
        (λ s₁ h2. store_values-Leaves ptr (suc i) vs s₁ h2 ks)

  pub visit_proj-Leaves :
      (x t : Var) (i : ℕ) (s : State L)
      → Knows L N B S K w s
      → K t
      → Leaves L A N B S (extend x K) w (visit_proj L x t i s)
  visit_proj-Leaves x t i s h k =
      Ends-deref A N (Knows L N B S (extend x K) w) _ _ (h.values t k)
        (λ p. named-Knows L A N B S x _ K w _ (kept L A N B S K w s _ _ h))

  -- The value that was visited is kept, too.
  abbrev Holds : State L → Type 0
  Holds s = Knows L N B S K w s × Has N s.value

  store_condition-Holds :
      (x : Var) (v : Option Anf.Value) (s : State L)
      → Holds s
      → IsReady A B S K (Anf.jump_exp x v)
      → Ends A N Holds (store_condition L x v s)
  store_condition-Holds x none s h r = h
  store_condition-Holds x (some v) s (h, a) (b, m, k) = Ends-deref A N Holds s.value _ a (λ p.
      Ends-deref A N Holds (lookup x s.spill_slots) _ (h.slots x m)
        (λ q. (kept L A N B S K w s _ _ h, a)))

  IsReady-block : (x : Var) (v : Option Anf.Value) → IsReady A B S K (Anf.jump_exp x v) → B x
  IsReady-block x none b = b
  IsReady-block x (some v) (b, m, k) = b

  pub visit_if_jump-Leaves :
      (c : Anf.Value) (x y : Var) (u v : Option Anf.Value) (s : State L)
      → Knows L N B S K w s
      → IsKnown K c
      → IsReady A B S K (Anf.jump_exp x u)
      → IsReady A B S K (Anf.jump_exp y v)
      → Leaves L A N B S K w (visit_if_jump L c (x, u) (y, v) s)
  visit_if_jump-Leaves c x y u v s h k r q =
      let (h1, a) = visit_value-Knows L A N B S c K w s h k in
      Ends-deref A N (Knows L N B S K w) _ _ a (λ p.
        Ends-bind A N Holds (Knows L N B S K w) _ _
          (store_condition-Holds x u _ (kept L A N B S K w _ _ _ h1, a) r)
          (λ s₃ h3.
            Ends-bind A N Holds (Knows L N B S K w) _ _ (store_condition-Holds y v s₃ h3 q)
              (λ s₄ (h4, a4).
                Ends-deref A N (Knows L N B S K w) _ _ (h4.blocks x (IsReady-block x u r)) (λ t.
                  Ends-deref A N (Knows L N B S K w) _ _ (h4.blocks y (IsReady-block y v q))
                    (λ e. kept L A N B S K w s₄ _ _ h4)))))

  pub visit_branches-Knows :
      (c : Anf.Value) (t e : Anf.Exp) (s : State L)
      → Knows L N B S K w s
      → IsKnown K c
      → Knows L N B S K (e ∷ t ∷ w) (visit_branches L c t e s)
  visit_branches-Knows c t e s h k =
      let h1 = (visit_value-Knows L A N B S c K w s h k).0 in
      record {
        values = h1.values;
        slots = h1.slots;
        blocks = h1.blocks;
        tasks = ap (λ r. e ∷ t ∷ r) h1.tasks;
      }
