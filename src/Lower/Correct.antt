-- ===== src/Lower/Correct.antt =====
-- src/lower.cpp: `lowerModule` ends; what the passes before it produce fails none of its assertions; and
-- what keeps the order of the blocks meets no null pointer.
use lambcalc_cpp.Base.{
  ℕ, ◌≡◌, ◌≢◌, refl, ◌∙◌, sym, ap, ◌⊎◌, inl, inr, Bool-cases, Option, some, List, [], ◌∷◌, Str,
  length,
}
use lambcalc_cpp.Ast
use lambcalc_cpp.Hoist.{Function}
use lambcalc_cpp.Hoist.Blocks.{HasBlock, AreComplete}
use lambcalc_cpp.Anf.Success.{calls_no_literal}
use lambcalc_cpp.Rename.Scope.{in_scope}
use lambcalc_cpp.Compile.{Compiled, compile, compiled}
use lambcalc_cpp.Compile.Correct.{compile-AreComplete, compile-uncaught, compile-reports}
use lambcalc_cpp.Anf.Known.{Names, extend_all}
use lambcalc_cpp.Lower.Library.{Llvm}
use lambcalc_cpp.Lower.{
  Lowering, lowered, null_pointer, out_of_range, assertion_failed, out_of_fuel, State,
}
use lambcalc_cpp.Lower.Module.{
  create_block, create_blocks, empty, lower_body, lower_functions, declare, lower_module,
}
use lambcalc_cpp.Lower.Ready.{after, IsReady, Ends, Ends-bind, Has-any, Ends-deref}
use lambcalc_cpp.Lower.Values.{Knows}
use lambcalc_cpp.Lower.Blocks.{lower_block-Leaves}
use lambcalc_cpp.Lower.Anything.{anything, after-any, extend_all-any, IsReady-any, AreOrdered-any}
use lambcalc_cpp.Lower.Functions.{
  HasSlot, AreOrdered, IsOrdered, name_args-Leaves, lower_blocks-Ends, create_blocks-blocks,
  create_blocks-slots, create_blocks-tasks,
}

module _ (L : Llvm) (A N : Type 0) (B S K : Names) (f : Function) where
  lower_body-Ends :
      (fn : L.Value) (ir : L.Ir)
      → ((x : Str) → HasBlock f.blocks x → B x)
      → ((x : Str) → B x → HasBlock f.blocks x ⊎ N)
      → ((x : Str) → HasSlot f.blocks x → S x)
      → ((x : Str) → S x → HasSlot f.blocks x ⊎ N)
      → ((x : Str) → K x → N)
      → ((ir : L.Ir) → N ⊎ (length (L.args fn ir) ≡ length f.params))
      → IsReady A B S (extend_all f.params K) f.entry_block.body
      → AreOrdered A B S (after f.entry_block.body (extend_all f.params K)) f.blocks
      → Ends A N (λ _. Unit) (lower_body L f fn ir)
  unfolding lower_body
  lower_body-Ends fn ir b b' m m' k args r rs =
      let K' = extend_all f.params K in
      let start = (create_block L f.entry_block fn (empty L ir)) in
      let s = record start.1 { ir = L.set_insert_point start.0 start.1.ir } in
      let s₁ = create_blocks L f.blocks fn s in
      let h : Knows L N B S K [] s₁ = record {
        values = λ x e. Has-any N _ (k x e);
        slots = λ x e. elim (m' x e) [
          | inl h ↦ create_blocks-slots L N fn f.blocks s x (inl h)
          | inr n ↦ Has-any N _ n
        ];
        blocks = λ x e. elim (b' x e) [
          | inl h ↦ create_blocks-blocks L N fn f.blocks s x (inl h)
          | inr n ↦ Has-any N _ n
        ];
        tasks = create_blocks-tasks L N fn f.blocks s;
      } in
      Ends-bind A N (Knows L N B S K' []) (λ _. Unit) _ _
        (name_args-Leaves L A N B S _ f.params K s₁ h (args s₁.ir))
        (λ s₂ h2.
          Ends-bind A N (Knows L N B S (after f.entry_block.body K') []) (λ _. Unit) _ _
            (lower_block-Leaves L A N B S f.entry_block.body K' s₂ h2 r)
            (λ s₃ h3. lower_blocks-Ends L A N B S f.blocks _ s₃ h3 b m rs))

abbrev functions_in : Option Compiled → List Function
functions_in (some (compiled fns n)) = fns
functions_in _ = []

module _ (L : Llvm) where
  lower_functions-Ends :
      (A : Type 0) (fs : List Function) (ir : L.Ir)
      → A ⊎ AreComplete fs
      → Ends A Unit (λ _. Unit) (lower_functions L fs ir)
  unfolding lower_functions
  lower_functions-Ends A [] ir h = tt
  lower_functions-Ends A (f ∷ fs) ir h =
      let K = extend_all f.params anything in
      let k = extend_all-any f.params anything (λ x. tt) in
      let e = f.entry_block.body in
      Ends-deref A Unit (λ _. Unit) (L.get_function f.name ir) _ (Has-any Unit _ tt)
        (λ fn.
          Ends-bind A Unit (λ _. Unit) (λ _. Unit) _ _
            (lower_body-Ends L A Unit anything anything anything f fn ir (λ x b. tt) (λ x b. inr tt)
              (λ x b. tt) (λ x b. inr tt) (λ x b. tt) (λ ir. inl tt)
              (IsReady-any A (HasBlock f.blocks) e K k
                (elim h [ inl a ↦ inl a | inr ((b, bs), c) ↦ inr b ]))
              (AreOrdered-any A (HasBlock f.blocks) f.blocks _ (after-any e K k)
                (elim h [ inl a ↦ inl a | inr ((b, bs), c) ↦ inr bs ])))
            (λ s u. lower_functions-Ends A fs s.ir (elim h [ inl a ↦ inl a | inr (b, c) ↦ inr c ])))

  -- `lowerModule` ends within its bounds, for all functions.
  pub lower_module-terminates :
      (fns : List Function) (ir : L.Ir) → lower_module L fns ir ≢ out_of_fuel
  unfolding lower_module
  lower_module-terminates fns ir e =
      let h = lower_functions-Ends Unit fns (declare L fns ir) (inl tt) in rw e at h

  lower_module-AreComplete :
      (fns : List Function) (ir : L.Ir) → AreComplete fns → lower_module L fns ir ≢ assertion_failed
  unfolding lower_module
  lower_module-AreComplete fns ir c e =
      let h = lower_functions-Ends ⊥ fns (declare L fns ir) (inr c) in rw e at h

  -- Whatever expression the functions were compiled from, lowering them fails no assertion.
  pub lower_module-compile :
      (exp : Ast.Exp) (n m : ℕ) (fns : List Function) (ir : L.Ir)
      → compile exp n ≡ some (compiled fns m)
      → lower_module L fns ir ≢ assertion_failed
  lower_module-compile exp n m fns ir h = lower_module-AreComplete fns ir (complete)
    where
      complete : AreComplete fns
      complete = elim (Bool-cases (in_scope [] exp)) [
        | inl scoped ↦ elim (Bool-cases (calls_no_literal exp)) [
          | inl ok ↦
              let (fs, p, c) = compile-AreComplete exp n scoped ok in
              let q : fs ≡ fns = ap functions_in (sym p ∙ h) in rw q at c
          | inr bad ↦ let (msg, p) = compile-uncaught exp n scoped bad in cc
        ]
        | inr unscoped ↦ let (x, p) = compile-reports exp n unscoped in cc
      ]

  -- A function in whose blocks there are no functions and no join points, whose jumps go to blocks of its
  -- own, with a slot where the jump has a value, and each name in which is a parameter or is bound before
  -- it is used, in the order in which the entry block and the list of blocks are visited, is lowered, if LLVM
  -- gives it as many arguments as it has parameters: no pointer is null, no assertion fails, and the
  -- loops end.
  pub lower_body-lowered :
      (f : Function) (fn : L.Value) (ir : L.Ir)
      → ((ir : L.Ir) → length (L.args fn ir) ≡ length f.params)
      → IsOrdered f
      → (s : State L) × (lower_body L f fn ir ≡ lowered s)
  lower_body-lowered f fn ir args (r, rs) = go (lower_body L f fn ir) (
      lower_body-Ends L ⊥ ⊥ (HasBlock f.blocks) (HasSlot f.blocks) (λ _. ⊥) f fn ir (λ x b. b)
        (λ x b. inl b) (λ x b. b) (λ x b. inl b) (λ x. absurd) (λ ir. inr (args ir)) r rs)
    where
      go : (r : Lowering (State L)) → Ends ⊥ ⊥ (λ _. Unit) r → (s : State L) × (r ≡ lowered s)
      go (lowered s) h = (s, refl)
      go null_pointer h = absurd h
      go out_of_range h = absurd h
      go assertion_failed h = absurd h
      go out_of_fuel h = absurd h
