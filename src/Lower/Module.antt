-- ===== src/Lower/Module.antt =====
-- src/lower.cpp: the loop of `lowerBlock` over a `std::stack` (a list, last pushed first), and
-- `lowerModule`. The managers of the passes of LLVM are not modelled, and neither is
-- `verifyFunction`, whose result is not used.
use lambcalc_cpp.Base.{ℕ, zero, suc, ◌+◌, Option, none, some, List, [], ◌∷◌}
use lambcalc_cpp.Anf
use lambcalc_cpp.Anf.{Var}
use lambcalc_cpp.Hoist.{Join, Function}
use lambcalc_cpp.Lower.Library.{Llvm}
use lambcalc_cpp.Lower.{
  Lowering, lowered, out_of_range, out_of_fuel, bind, deref, lookup, State, built, named,
  get_function_type,
}
use lambcalc_cpp.Lower.Visitor.{visit}

-- The visits of an expression and what is below it.
abbrev pub size : Anf.Exp → ℕ
size (Anf.if_exp cond t e) = suc (size t + size e)
size (Anf.bop_exp name bop param1 param2 rest) = suc (size rest)
size (Anf.app_exp name fun_name param_values rest) = suc (size rest)
size (Anf.tuple_exp name values rest) = suc (size rest)
size (Anf.proj_exp name tuple index rest) = suc (size rest)
size _ = 1

abbrev pub sizes : List Anf.Exp → ℕ
sizes [] = 0
sizes (e ∷ w) = size e + sizes w

module _ (L : Llvm) where
  abbrev pub run_tasks :
      (State L → Lowering (State L)) → List Anf.Exp → State L → Lowering (State L)
  run_tasks rounds [] s = lowered s
  run_tasks rounds (e ∷ w) s = bind (visit L e (record s { worklist = w })) rounds

  -- `while (!worklist.empty())`, for at most `fuel` rounds.
  unfoldable pub run : ℕ → State L → Lowering (State L)
  unfolding visit
  run zero s = run_tasks (λ _. out_of_fuel) s.worklist s
  run (suc fuel) s = run_tasks (run fuel) s.worklist s

  -- `lowerBlock`.
  unfoldable pub lower_block : Anf.Exp → State L → Lowering (State L)
  unfolding run
  lower_block body s = let w = body ∷ s.worklist in run (sizes w) (record s { worklist = w })

  -- The loop that declares the functions.
  unfoldable pub declare : List Function → L.Ir → L.Ir
  declare [] ir = ir
  declare (fn ∷ fns) ir = declare fns (L.create_function (get_function_type L fn.params) fn.name ir)

  abbrev pub create_block : Join → L.Value → State L → L.Block × State L
  create_block block fn s =
      let (b, ir) = L.create_block block.name fn s.ir in
      (b, record s { ir = ir; named_blocks = (block.name, b) ∷ s.named_blocks })

  abbrev pub create_slot : Var → Option Var → State L → State L
  create_slot name none s = s
  create_slot name (some x) s =
      let (slot, ir) = L.create_alloca L.int64_ty s.ir in
      record s { ir = ir; spill_slots = (name, slot) ∷ s.spill_slots }

  -- The loop that creates the blocks and their slots.
  unfoldable pub create_blocks : List Join → L.Value → State L → State L
  create_blocks [] fn s = s
  create_blocks (block ∷ blocks) fn s =
      create_blocks blocks fn (create_slot block.name block.slot (create_block block fn s).1)

  -- The loop that names the arguments.
  unfoldable pub name_args : List L.Value → List Var → State L → Lowering (State L)
  name_args [] params s = lowered s
  name_args (arg ∷ args) [] s = out_of_range
  name_args (arg ∷ args) (param ∷ params) s =
      name_args args params
        (record s { ir = L.set_name arg param s.ir; named_values = (param, arg) ∷ s.named_values })

  abbrev pub load_slot : Var → Option Var → State L → Lowering (State L)
  load_slot name none s = lowered s
  load_slot name (some x) s =
      deref (lookup name s.spill_slots)
        (λ slot. lowered (named L x (built L s (L.create_load L.int64_ty slot x s.ir))))

  -- The loop that lowers the blocks.
  unfoldable pub lower_blocks : List Join → State L → Lowering (State L)
  unfolding lower_block lookup
  lower_blocks [] s = lowered s
  lower_blocks (block ∷ blocks) s = deref (lookup block.name s.named_blocks) (λ b.
      bind (load_slot block.name block.slot (record s { ir = L.set_insert_point b s.ir }))
        (λ s₁. bind (lower_block block.body s₁) (lower_blocks blocks)))

  abbrev pub empty : L.Ir → State L
  empty ir = record {
    ir = ir;
    value = none;
    named_values = [];
    spill_slots = [];
    named_blocks = [];
    worklist = [];
  }

  -- A function of the loop of `lowerModule`, for which `module.getFunction` returned `fn`.
  unfoldable pub lower_body : Function → L.Value → L.Ir → Lowering (State L)
  unfolding lower_block lower_blocks name_args create_blocks
  lower_body f fn ir =
      let (b, s) = create_block f.entry_block fn (empty ir) in
      let s₁ = create_blocks f.blocks fn (record s { ir = L.set_insert_point b s.ir }) in
      bind (name_args (L.args fn s₁.ir) f.params s₁)
        (λ s₂. bind (lower_block f.entry_block.body s₂) (lower_blocks f.blocks))

  unfoldable pub lower_functions : List Function → L.Ir → Lowering L.Ir
  unfolding lower_body
  lower_functions [] ir = lowered ir
  lower_functions (f ∷ fs) ir =
      deref (L.get_function f.name ir)
        (λ fn. bind (lower_body f fn ir) (λ s. lower_functions fs s.ir))

  -- `lowerModule`.
  unfoldable pub lower_module : List Function → L.Ir → Lowering L.Ir
  unfolding lower_functions declare
  lower_module fns ir = lower_functions fns (declare fns ir)
