-- ===== src/Lower/Values.antt =====
-- src/lower.cpp: the visits of values, where the maps have what they need.
use lambcalc_cpp.Base.{◌≡◌, refl, ap, inl, inr, Option, none, some, List, [], ◌∷◌, Str, str_eq_iff}
use lambcalc_cpp.Anf
use lambcalc_cpp.Anf.{Var, int_value, var_value, glob_value}
use lambcalc_cpp.Anf.Known.{Names, extend, IsKnown, AreKnown}
use lambcalc_cpp.Lower.Library.{Llvm}
use lambcalc_cpp.Lower.{
  lookup, Lowering, State, named, visit_glob_value, visit_value, visit_values, derefs, pipeline,
  store_at,
}
use lambcalc_cpp.Lower.Ready.{Ends, Has, Ends-deref, lookup-Has}

-- The maps of the visitor have the names of `K`, `S` and `B`, and `w` is to be visited.
pub record Knows (L : Llvm) (N : Type 0) (B S K : Names) (w : List Anf.Exp) (s : State L)
    : Type 0 where
  pub values : (x : Str) → K x → Has N (lookup x s.named_values)
  pub slots : (x : Str) → S x → Has N (lookup x s.spill_slots)
  pub blocks : (x : Str) → B x → Has N (lookup x s.named_blocks)
  pub tasks : s.worklist ≡ w

module _ (L : Llvm) (A N : Type 0) (B S : Names) where
  abbrev pub Leaves : Names → List Anf.Exp → Lowering (State L) → Type 0
  Leaves K w r = Ends A N (Knows L N B S K w) r

  -- A name is given a value.
  pub named-Knows :
      (x : Var) (v : L.Value) (K : Names) (w : List Anf.Exp) (s : State L)
      → Knows L N B S K w s
      → Knows L N B S (extend x K) w (named L x (v, s))
  unfolding lookup
  named-Knows x v K w s h = record {
    values = λ y k. elim k [
      | inl e ↦ rw (e, (str_eq_iff x x).1 refl) tt
      | inr k ↦ lookup-Has N y x v s.named_values (h.values y k)
    ];
    slots = h.slots;
    blocks = h.blocks;
    tasks = h.tasks;
  }

  -- Only the module and `value_` have changed.
  pub kept :
      (K : Names) (w : List Anf.Exp) (s : State L) (ir : L.Ir) (v : Option L.Value)
      → Knows L N B S K w s
      → Knows L N B S K w (record s { ir = ir; value = v })
  kept K w s ir v h = record {
    values = h.values;
    slots = h.slots;
    blocks = h.blocks;
    tasks = h.tasks;
  }

  pub visit_value-Knows :
      (v : Anf.Value) (K : Names) (w : List Anf.Exp) (s : State L)
      → Knows L N B S K w s
      → IsKnown K v
      → Knows L N B S K w (visit_value L v s) × Has N (visit_value L v s).value
  unfolding visit_value
  visit_value-Knows (int_value i) K w s h k = (kept K w s s.ir _ h, tt)
  visit_value-Knows (var_value x) K w s h k = (kept K w s s.ir _ h, h.values x k)
  visit_value-Knows (glob_value x) K w s h k = go (L.get_function x s.ir) (L.get_global x s.ir)
    where
      go :
          (f g : Option L.Value)
          → Knows L N B S K w (visit_glob_value L x s f g)
            × Has N (visit_glob_value L x s f g).value
      go (some f) g = (kept K w s _ _ h, tt)
      go none (some g) = (kept K w s _ _ h, tt)
      go none none = (kept K w s _ _ h, tt)

  abbrev pub AllHas : List (Option L.Value) → Type 0
  AllHas [] = Unit
  AllHas (o ∷ os) = Has N o × AllHas os

  pub visit_values-Knows :
      (vs : List Anf.Value) (K : Names) (w : List Anf.Exp) (s : State L)
      → Knows L N B S K w s
      → AreKnown K vs
      → Knows L N B S K w (visit_values L vs s).1 × AllHas (visit_values L vs s).0
  unfolding visit_values
  visit_values-Knows [] K w s h k = (h, tt)
  visit_values-Knows (v ∷ vs) K w s h (k, ks) =
      let (h1, a) = visit_value-Knows v K w s h k in
      let (h2, os) = visit_values-Knows vs K w (visit_value L v s) h1 ks in (h2, (a, os))

  pub Ends-derefs :
      {Y : Type 0} (Q : Y → Type 0) (os : List (Option L.Value)) (f : List L.Value → Lowering Y)
      → AllHas os
      → ((vs : List L.Value) → Ends A N Q (f vs))
      → Ends A N Q (derefs L os f)
  Ends-derefs Q [] f h k = k []
  Ends-derefs Q (o ∷ os) f (a, h) k =
      Ends-deref A N Q o _ a (λ x. Ends-derefs Q os (λ rest. f (x ∷ rest)) h (λ rest. k (x ∷ rest)))

  pub store_at-Leaves :
      (slot : Option L.Value) (K : Names) (w : List Anf.Exp) (s : State L)
      → Knows L N B S K w s
      → Has N s.value
      → Has N slot
      → Leaves K w (store_at L slot s)
  store_at-Leaves slot K w s h a b =
      Ends-deref A N (Knows L N B S K w) s.value _ a
        (λ v. Ends-deref A N (Knows L N B S K w) slot _ b (λ p. kept K w s _ _ h))

  -- The values are visited again, and the rest is pushed.
  pub pipeline-Knows :
      (vs : List Anf.Value) (rest : Anf.Exp) (K : Names) (w : List Anf.Exp) (s : State L)
      → Knows L N B S K w s
      → AreKnown K vs
      → Knows L N B S K (rest ∷ w) (pipeline L vs rest s)
  pipeline-Knows vs rest K w s h k =
      let h' = (visit_values-Knows vs K w s h k).0 in
      record {
        values = h'.values;
        slots = h'.slots;
        blocks = h'.blocks;
        tasks = ap (λ t. rest ∷ t) h'.tasks;
      }
