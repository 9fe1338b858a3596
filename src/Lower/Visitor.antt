-- ===== src/Lower/Visitor.antt =====
-- src/lower.cpp: the visitor at each expression, with `MatchIfJump` of include/visitor.h.
use lambcalc_cpp.Base.{ℕ, suc, ◌*◌, Option, none, some, List, [], ◌∷◌, bytes, pos, length}
use lambcalc_cpp.Ast.{Bop, plus, minus, times}
use lambcalc_cpp.Anf
use lambcalc_cpp.Anf.{Var, var_value}
use lambcalc_cpp.Lower.Library.{Llvm, BinaryOp, add, sub, mul}
use lambcalc_cpp.Lower.{
  Lowering, lowered, assertion_failed, bind, deref, lookup, State, built, named, visit_value,
  visit_values, derefs, get_function_type, pipeline, store_at,
}

abbrev pub jump_of : Anf.Exp → Option (Var × Option Anf.Value)
jump_of (Anf.jump_exp join_name slot_value) = some (join_name, slot_value)
jump_of _ = none

module _ (L : Llvm) where
  abbrev pub visit_halt : Anf.Value → State L → State L
  visit_halt value s =
      let s₁ = visit_value L value s in record s₁ { ir = L.create_ret s₁.value s₁.ir }

  abbrev pub store_slot_value : Var → Option Anf.Value → State L → Lowering (State L)
  store_slot_value join_name none s = lowered s
  store_slot_value join_name (some v) s =
      let slot = lookup join_name s.spill_slots in store_at L slot (visit_value L v s)

  abbrev pub visit_jump : Var → Option Anf.Value → State L → Lowering (State L)
  visit_jump join_name slot_value s =
      let block = lookup join_name s.named_blocks in
      bind (store_slot_value join_name slot_value s)
        (λ s₁. deref block (λ b. lowered (record s₁ { ir = L.create_br b s₁.ir })))

  -- The function is the value of a name, or else a function of the module.
  abbrev pub call :
      Var → List Anf.Value → List L.Value → Option L.Value → Var → State L → Lowering (State L)
  call name values params (some pointer) fun_name s =
      let fty = get_function_type L values in
      let (fn, s₁) = built L s (L.create_int_to_ptr pointer (L.pointer_ty fty) s.ir) in
      lowered (named L name (built L s₁ (L.create_call_at fty fn params name s₁.ir)))
  call name values params none fun_name s =
      deref (L.get_function fun_name s.ir)
        (λ fn. lowered (named L name (built L s (L.create_call fn params name s.ir))))

  abbrev pub visit_app : Var → Var → List Anf.Value → State L → Lowering (State L)
  visit_app name fun_name param_values s =
      let (params, s₁) = visit_values L param_values s in
      derefs L params
        (λ params. call name param_values params (lookup fun_name s₁.named_values) fun_name s₁)

  abbrev pub binary_op : Bop → BinaryOp
  binary_op plus = add
  binary_op minus = sub
  binary_op times = mul

  abbrev pub visit_bop : Var → Bop → Anf.Value → Anf.Value → State L → Lowering (State L)
  visit_bop name bop param1 param2 s =
      let s₁ = visit_value L param1 s in
      let s₂ = visit_value L param2 s₁ in
      deref s₁.value (λ a.
        deref s₂.value (λ b.
          lowered (named L name (built L s₂ (L.create_bin_op (binary_op bop) a b name s₂.ir)))))

  -- The loop that stores the values of a tuple from the index `i` on.
  unfoldable pub store_values : L.Value → ℕ → List Anf.Value → State L → Lowering (State L)
  unfolding visit_value
  store_values ptr i [] s = lowered s
  store_values ptr i (value ∷ values) s =
      let (gep, s₁) = built L s (L.create_gep L.int64_ty ptr (L.int64 (pos i)) s.ir) in
      bind (store_at L (some gep) (visit_value L value s₁)) (store_values ptr (suc i) values)

  abbrev pub visit_tuple : Var → List Anf.Value → State L → Lowering (State L)
  visit_tuple name values s =
      let (malloc, s₁) =
        built L s
          (L.insert_function (bytes "malloc") (L.function_ty L.ptr_ty (L.int64_ty ∷ [])) s.ir) in
      let size = L.int64 (pos (length values * 8)) in
      let (ptr, s₂) = built L s₁ (L.create_call malloc (size ∷ []) name s₁.ir) in
      store_values ptr 0 values
        (named L name (built L s₂ (L.create_ptr_to_int ptr L.int64_ty s₂.ir)))

  abbrev pub visit_proj : Var → Var → ℕ → State L → Lowering (State L)
  visit_proj name tuple index s = deref (lookup tuple s.named_values) (λ tuple_int.
      let (tuple_ptr, s₁) = built L s (L.create_int_to_ptr tuple_int L.ptr_ty s.ir) in
      let (gep, s₂) = built L s₁ (L.create_gep L.int64_ty tuple_ptr (L.int64 (pos index)) s₁.ir) in
      lowered (named L name (built L s₂ (L.create_load L.int64_ty gep name s₂.ir))))

  -- What a branch stores is the condition, whatever value its jump has.
  abbrev pub store_condition : Var → Option Anf.Value → State L → Lowering (State L)
  store_condition join_name none s = lowered s
  store_condition join_name (some v) s = store_at L (lookup join_name s.spill_slots) s

  abbrev pub visit_if_jump :
      Anf.Value → Var × Option Anf.Value → Var × Option Anf.Value → State L → Lowering (State L)
  visit_if_jump value (then_name, then_value) (else_name, else_value) s =
      let s₁ = visit_value L value s in
      deref s₁.value (λ v.
        let (cond, s₂) = built L s₁ (L.create_icmp_ne v (L.int64 (pos 0)) s₁.ir) in
        bind (store_condition then_name then_value s₂) (λ s₃.
          bind (store_condition else_name else_value s₃) (λ s₄.
            deref (lookup then_name s₄.named_blocks) (λ t.
              deref (lookup else_name s₄.named_blocks)
                (λ e. lowered (record s₄ { ir = L.create_cond_br cond t e s₄.ir }))))))

  -- The pipeline at an `IfExp` whose branches are not both jumps.
  abbrev pub visit_branches : Anf.Value → Anf.Exp → Anf.Exp → State L → State L
  visit_branches cond t e s =
      let s' = visit_value L cond s in record s' { worklist = e ∷ t ∷ s'.worklist }

  -- `MatchIfJump`.
  abbrev pub match_if_jump :
      Anf.Value
      → Anf.Exp
      → Anf.Exp
      → Option (Var × Option Anf.Value)
      → Option (Var × Option Anf.Value)
      → State L
      → Lowering (State L)
  match_if_jump cond t e (some then_jump) (some else_jump) s =
      visit_if_jump cond then_jump else_jump s
  match_if_jump cond t e (some then_jump) none s = lowered (visit_branches cond t e s)
  match_if_jump cond t e none else_jump s = lowered (visit_branches cond t e s)

  -- `operator()`.
  unfoldable pub visit : Anf.Exp → State L → Lowering (State L)
  unfolding visit_value visit_values store_values lookup
  visit (Anf.halt_exp value) s = lowered (visit_halt value s)
  visit (Anf.fun_exp name params body rest) s = assertion_failed
  visit (Anf.join_exp name slot body rest) s = assertion_failed
  visit (Anf.jump_exp join_name slot_value) s = visit_jump join_name slot_value s
  visit (Anf.app_exp name fun_name param_values rest) s =
      bind (visit_app name fun_name param_values s)
        (λ s₁. lowered (pipeline L (var_value fun_name ∷ param_values) rest s₁))
  visit (Anf.bop_exp name bop param1 param2 rest) s =
      bind (visit_bop name bop param1 param2 s)
        (λ s₁. lowered (pipeline L (param1 ∷ param2 ∷ []) rest s₁))
  visit (Anf.tuple_exp name values rest) s =
      bind (visit_tuple name values s) (λ s₁. lowered (pipeline L values rest s₁))
  visit (Anf.proj_exp name tuple index rest) s =
      bind (visit_proj name tuple index s)
        (λ s₁. lowered (pipeline L (var_value tuple ∷ []) rest s₁))
  visit (Anf.if_exp cond t e) s = match_if_jump cond t e (jump_of t) (jump_of e) s
