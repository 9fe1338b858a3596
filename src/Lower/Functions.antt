-- ===== src/Lower/Functions.antt =====
-- src/lower.cpp: `lowerModule` on functions whose blocks use only names that they bind, or that the
-- blocks before them in the list bind.
use lambcalc_cpp.Base.{
  ◌≡◌, refl, ◌∙◌, ◌⊎◌, inl, inr, Option, none, some, List, [], ◌∷◌, Str, length, str_eq_iff, arith,
}
use lambcalc_cpp.Anf.{Var}
use lambcalc_cpp.Hoist.{Join, Function}
use lambcalc_cpp.Hoist.Blocks.{HasBlock}
use lambcalc_cpp.Anf.Known.{Names, extend, extend_slot, extend_all}
use lambcalc_cpp.Lower.Library.{Llvm}
use lambcalc_cpp.Lower.{lookup, State}
use lambcalc_cpp.Lower.Module.{
  create_block, create_slot, create_blocks, name_args, load_slot, lower_blocks,
}
use lambcalc_cpp.Lower.Ready.{after, IsReady, Ends, Ends-bind, Has, Has-any, Ends-deref, lookup-Has}
use lambcalc_cpp.Lower.Values.{Knows, Leaves, named-Knows, kept}
use lambcalc_cpp.Lower.Blocks.{lower_block-Leaves}

abbrev pub NamesSlot : Var → Option Var → Names
NamesSlot y none x = ⊥
NamesSlot y (some z) x = x ≡ y

-- A block with the name has a slot.
abbrev pub HasSlot : List Join → Names
HasSlot [] x = ⊥
HasSlot (j ∷ js) x = NamesSlot j.name j.slot x ⊎ HasSlot js x

-- The blocks are ready when they are lowered, one after the other.
abbrev pub AreOrdered : Type 0 → Names → Names → Names → List Join → Type 0
AreOrdered A B S K [] = Unit
AreOrdered A B S K (j ∷ js) =
    let K' = extend_slot j.slot K in IsReady A B S K' j.body × AreOrdered A B S (after j.body K') js

-- The blocks of a function have no functions and no join points, their jumps go to blocks of the
-- function, with a slot where the jump has a value, and each name that they use is a parameter, or bound
-- before in the order of the list of blocks, in which the entry block is the first.
abbrev pub IsOrdered : Function → Type 0
IsOrdered f =
    let B = HasBlock f.blocks in
    let S = HasSlot f.blocks in
    let K = extend_all f.params (λ _. ⊥) in
    IsReady ⊥ B S K f.entry_block.body × AreOrdered ⊥ B S (after f.entry_block.body K) f.blocks

module _ (L : Llvm) (A N : Type 0) (B S : Names) where
  load_slot-Leaves :
      (x : Var) (slot : Option Var) (K : Names) (s : State L)
      → Knows L N B S K [] s
      → ((y : Str) → NamesSlot x slot y → S y)
      → Leaves L A N B S (extend_slot slot K) [] (load_slot L x slot s)
  load_slot-Leaves x none K s h k = h
  load_slot-Leaves x (some y) K s h k =
      Ends-deref A N (Knows L N B S (extend y K) []) _ _ (h.slots x (k x refl))
        (λ p. named-Knows L A N B S y _ K [] _ (kept L A N B S K [] s _ _ h))

  pub lower_blocks-Ends :
      (js : List Join) (K : Names) (s : State L)
      → Knows L N B S K [] s
      → ((x : Str) → HasBlock js x → B x)
      → ((x : Str) → HasSlot js x → S x)
      → AreOrdered A B S K js
      → Ends A N (λ _. Unit) (lower_blocks L js s)
  unfolding lower_blocks
  lower_blocks-Ends [] K s h b m r = tt
  lower_blocks-Ends (j ∷ js) K s h b m (r, rs) =
      let K' = extend_slot j.slot K in
      Ends-deref A N (λ _. Unit) (lookup j.name s.named_blocks) _
        (h.blocks j.name (b j.name (inl refl)))
        (λ p.
          Ends-bind A N (Knows L N B S K' []) (λ _. Unit) _ _
            (load_slot-Leaves j.name j.slot K _ (kept L A N B S K [] s _ _ h) (λ y e. m y (inl e)))
            (λ s₁ h1.
              Ends-bind A N (Knows L N B S (after j.body K') []) (λ _. Unit) _ _
                (lower_block-Leaves L A N B S j.body K' s₁ h1 r)
                (λ s₂ h2.
                  lower_blocks-Ends js (after j.body K') s₂ h2 (λ x e. b x (inr e))
                    (λ x e. m x (inr e)) rs)))

  Knows-any : (n : N) (K : Names) (s : State L) → s.worklist ≡ [] → Knows L N B S K [] s
  Knows-any n K s e = record {
    values = λ x k. Has-any N _ n;
    slots = λ x k. Has-any N _ n;
    blocks = λ x k. Has-any N _ n;
    tasks = e;
  }

  pub name_args-Leaves :
      (vs : List L.Value) (xs : List Var) (K : Names) (s : State L)
      → Knows L N B S K [] s
      → N ⊎ (length vs ≡ length xs)
      → Leaves L A N B S (extend_all xs K) [] (name_args L vs xs s)
  unfolding name_args
  name_args-Leaves [] [] K s h k = h
  name_args-Leaves [] (x ∷ xs) K s h (inl n) = Knows-any n _ s h.tasks
  name_args-Leaves [] (x ∷ xs) K s h (inr e) = absurd (omega arith)
  name_args-Leaves (v ∷ vs) [] K s h (inl n) = n
  name_args-Leaves (v ∷ vs) [] K s h (inr e) = absurd (omega arith)
  name_args-Leaves (v ∷ vs) (x ∷ xs) K s h k =
      name_args-Leaves vs xs (extend x K) _
        (named-Knows L A N B S x v K [] _ (kept L A N B S K [] s _ _ h))
        (elim k [ inl n ↦ inl n | inr e ↦ inr (omega arith) ])

module _ (L : Llvm) (N : Type 0) (fn : L.Value) where
  create_slot-blocks :
      (x : Var) (slot : Option Var) (s : State L)
      → (create_slot L x slot s).named_blocks ≡ s.named_blocks
  create_slot-blocks x none s = refl
  create_slot-blocks x (some y) s = refl

  create_slot-slots :
      (x y : Var) (slot : Option Var) (s : State L)
      → NamesSlot x slot y ⊎ Has N (lookup y s.spill_slots)
      → Has N (lookup y (create_slot L x slot s).spill_slots)
  unfolding lookup
  create_slot-slots x y none s (inl e) = absurd e
  create_slot-slots x y none s (inr h) = h
  create_slot-slots x y (some z) s (inl e) = rw (e, (str_eq_iff x x).1 refl) tt
  create_slot-slots x y (some z) s (inr h) = lookup-Has N y x _ s.spill_slots h

  pub create_blocks-blocks :
      (js : List Join) (s : State L) (x : Str)
      → HasBlock js x ⊎ Has N (lookup x s.named_blocks)
      → Has N (lookup x (create_blocks L js fn s).named_blocks)
  unfolding create_blocks lookup
  create_blocks-blocks [] s x (inl e) = absurd e
  create_blocks-blocks [] s x (inr h) = h
  create_blocks-blocks (j ∷ js) s x (inl (inr h)) = create_blocks-blocks js _ x (inl h)
  create_blocks-blocks (j ∷ js) s x (inl (inl e)) = create_blocks-blocks js _ x (
      inr (
        rw
          (
            create_slot-blocks j.name j.slot (create_block L j fn s).1,
            e,
            (str_eq_iff j.name j.name).1 refl,
          )
          tt))
  create_blocks-blocks (j ∷ js) s x (inr h) = create_blocks-blocks js _ x (
      inr (
        rw (create_slot-blocks j.name j.slot (create_block L j fn s).1)
          (lookup-Has N x j.name _ s.named_blocks h)))

  pub create_blocks-slots :
      (js : List Join) (s : State L) (x : Str)
      → HasSlot js x ⊎ Has N (lookup x s.spill_slots)
      → Has N (lookup x (create_blocks L js fn s).spill_slots)
  unfolding create_blocks
  create_blocks-slots [] s x (inl e) = absurd e
  create_blocks-slots [] s x (inr h) = h
  create_blocks-slots (j ∷ js) s x (inl (inr h)) = create_blocks-slots js _ x (inl h)
  create_blocks-slots (j ∷ js) s x (inl (inl e)) =
      create_blocks-slots js _ x (inr (create_slot-slots j.name x j.slot _ (inl e)))
  create_blocks-slots (j ∷ js) s x (inr h) =
      create_blocks-slots js _ x (inr (create_slot-slots j.name x j.slot _ (inr h)))

  create_slot-tasks :
      (x : Var) (slot : Option Var) (s : State L) → (create_slot L x slot s).worklist ≡ s.worklist
  create_slot-tasks x none s = refl
  create_slot-tasks x (some y) s = refl

  pub create_blocks-tasks :
      (js : List Join) (s : State L) → (create_blocks L js fn s).worklist ≡ s.worklist
  unfolding create_blocks
  create_blocks-tasks [] s = refl
  create_blocks-tasks (j ∷ js) s =
      create_blocks-tasks js _ ∙ create_slot-tasks j.name j.slot (create_block L j fn s).1
