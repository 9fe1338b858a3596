-- ===== src/Lower/Kept/Functions.antt =====
-- src/lower.cpp: what the operations of LLVM keep of a module, across the blocks of a function.
use lambcalc_cpp.Base.{ℕ, zero, suc, ◌≡◌, Option, none, some, List, [], ◌∷◌}
use lambcalc_cpp.Anf
use lambcalc_cpp.Anf.{Var, Value, int_value, var_value, glob_value}
use lambcalc_cpp.Hoist.{Join, Function}
use lambcalc_cpp.Lower.Library.{Llvm}
use lambcalc_cpp.Lower.{Lowering, lowered, lookup, State}
use lambcalc_cpp.Lower.Module.{
  run_tasks, run, lower_block, create_slot, create_block, create_blocks, name_args, load_slot,
  lower_blocks, lower_body, empty, sizes,
}
use lambcalc_cpp.Lower.Kept.{IsKept, Keeps, Keeps-bind, Keeps-deref, visit-Keeps}

module _ (L : Llvm) (P : L.Ir → Type 0) (keeps : IsKept L P) where
  run_tasks-Keeps :
      (rounds : State L → Lowering (State L)) (w : List Anf.Exp) (s : State L)
      → ((s : State L) → P s.ir → Keeps L P keeps (rounds s))
      → P s.ir
      → Keeps L P keeps (run_tasks L rounds w s)
  run_tasks-Keeps rounds [] s k h = h
  run_tasks-Keeps rounds (e ∷ w) s k h =
      Keeps-bind L P keeps _ rounds (visit-Keeps L P keeps e _ h) k

  run-Keeps : (f : ℕ) (s : State L) → P s.ir → Keeps L P keeps (run L f s)
  unfolding run
  run-Keeps zero s h = run_tasks-Keeps _ s.worklist s (λ s k. tt) h
  run-Keeps (suc f) s h = run_tasks-Keeps (run L f) s.worklist s (run-Keeps f) h

  lower_block-Keeps : (e : Anf.Exp) (s : State L) → P s.ir → Keeps L P keeps (lower_block L e s)
  unfolding lower_block
  lower_block-Keeps e s h =
      let w = e ∷ s.worklist in run-Keeps (sizes w) (record s { worklist = w }) h

  load_slot-Keeps :
      (x : Var) (slot : Option Var) (s : State L) → P s.ir → Keeps L P keeps (load_slot L x slot s)
  load_slot-Keeps x none s h = h
  load_slot-Keeps x (some y) s h =
      Keeps-deref L P keeps (lookup x s.spill_slots) _ (λ p. keeps.create_load _ p y s.ir h)

  lower_blocks-Keeps :
      (js : List Join) (s : State L) → P s.ir → Keeps L P keeps (lower_blocks L js s)
  unfolding lower_blocks
  lower_blocks-Keeps [] s h = h
  lower_blocks-Keeps (j ∷ js) s h = Keeps-deref L P keeps (lookup j.name s.named_blocks) _ (λ b.
      Keeps-bind L P keeps _ _ (load_slot-Keeps j.name j.slot _ (keeps.set_insert_point b s.ir h))
        (λ s₁ h1.
          Keeps-bind L P keeps _ _ (lower_block-Keeps j.body s₁ h1)
            (λ s₂ h2. lower_blocks-Keeps js s₂ h2)))

  create_slot-kept :
      (x : Var) (slot : Option Var) (s : State L) → P s.ir → P (create_slot L x slot s).ir
  create_slot-kept x none s h = h
  create_slot-kept x (some y) s h = keeps.create_alloca _ s.ir h

  create_blocks-kept :
      (js : List Join) (fn : L.Value) (s : State L) → P s.ir → P (create_blocks L js fn s).ir
  unfolding create_blocks
  create_blocks-kept [] fn s h = h
  create_blocks-kept (j ∷ js) fn s h =
      create_blocks-kept js fn _
        (create_slot-kept j.name j.slot _ (keeps.create_block j.name fn s.ir h))

  name_args-Keeps :
      (vs : List L.Value) (xs : List Var) (s : State L)
      → P s.ir
      → Keeps L P keeps (name_args L vs xs s)
  unfolding name_args
  name_args-Keeps [] xs s h = h
  name_args-Keeps (v ∷ vs) [] s h = tt
  name_args-Keeps (v ∷ vs) (x ∷ xs) s h = name_args-Keeps vs xs _ (keeps.set_name v x s.ir h)

  lower_body-Keeps :
      (f : Function) (fn : L.Value) (ir : L.Ir) → P ir → Keeps L P keeps (lower_body L f fn ir)
  unfolding lower_body
  lower_body-Keeps f fn ir h =
      let start = create_block L f.entry_block fn (empty L ir) in
      let h1 =
        create_blocks-kept f.blocks fn
          (record start.1 { ir = L.set_insert_point start.0 start.1.ir })
          (keeps.set_insert_point _ _ (keeps.create_block f.entry_block.name fn ir h)) in
      Keeps-bind L P keeps _ _ (name_args-Keeps _ f.params _ h1) (λ s₂ h2.
        Keeps-bind L P keeps _ _ (lower_block-Keeps f.entry_block.body s₂ h2)
          (λ s₃ h3. lower_blocks-Keeps f.blocks s₃ h3))

  pub lower_body-kept :
      (f : Function) (fn : L.Value) (ir : L.Ir) (s : State L)
      → P ir
      → lower_body L f fn ir ≡ lowered s
      → P s.ir
  lower_body-kept f fn ir s h e = let k = lower_body-Keeps f fn ir h in rw e at k
