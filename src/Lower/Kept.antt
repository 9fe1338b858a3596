-- ===== src/Lower/Kept.antt =====
-- src/lower.cpp: what the operations of LLVM keep of a module, across the visits of a block.
pub mod Functions
use lambcalc_cpp.Base.{ℕ, zero, suc, ◌≡◌, Option, none, some, List, [], ◌∷◌, Str, pos}
use lambcalc_cpp.Ast.{Bop}
use lambcalc_cpp.Anf
use lambcalc_cpp.Anf.{Var, Value, int_value, var_value, glob_value}
use lambcalc_cpp.Hoist.{Join, Function}
use lambcalc_cpp.Lower.Library.{Llvm, BinaryOp}
use lambcalc_cpp.Lower.{
  Lowering, lowered, null_pointer, out_of_range, assertion_failed, out_of_fuel, bind, deref, lookup,
  State, built, visit_glob_value, visit_value, visit_values, derefs, pipeline, store_at,
}
use lambcalc_cpp.Lower.Visitor.{
  jump_of, visit_jump, call, visit_app, visit_bop, store_values, visit_tuple, visit_proj,
  store_condition, match_if_jump, visit,
}
use lambcalc_cpp.Lower.Module.{
  run_tasks, run, lower_block, create_slot, create_block, create_blocks, name_args, load_slot,
  lower_blocks, lower_body, empty, sizes,
}

-- Each operation that lowering a function calls keeps the property.
pub record IsKept (L : Llvm) (P : L.Ir → Type 0) : Type 0 where
  pub insert_global : (x : Str) (ty : L.Ty) (ir : L.Ir) → P ir → P (L.insert_global x ty ir).1
  pub insert_function : (x : Str) (ty : L.Ty) (ir : L.Ir) → P ir → P (L.insert_function x ty ir).1
  pub set_name : (v : L.Value) (x : Str) (ir : L.Ir) → P ir → P (L.set_name v x ir)
  pub create_block : (x : Str) (fn : L.Value) (ir : L.Ir) → P ir → P (L.create_block x fn ir).1
  pub set_insert_point : (b : L.Block) (ir : L.Ir) → P ir → P (L.set_insert_point b ir)
  pub create_alloca : (ty : L.Ty) (ir : L.Ir) → P ir → P (L.create_alloca ty ir).1
  pub create_load :
      (ty : L.Ty) (v : L.Value) (x : Str) (ir : L.Ir) → P ir → P (L.create_load ty v x ir).1
  pub create_store : (v p : L.Value) (ir : L.Ir) → P ir → P (L.create_store v p ir)
  pub create_ptr_to_int :
      (v : L.Value) (ty : L.Ty) (ir : L.Ir) → P ir → P (L.create_ptr_to_int v ty ir).1
  pub create_int_to_ptr :
      (v : L.Value) (ty : L.Ty) (ir : L.Ir) → P ir → P (L.create_int_to_ptr v ty ir).1
  pub create_gep : (ty : L.Ty) (p i : L.Value) (ir : L.Ir) → P ir → P (L.create_gep ty p i ir).1
  pub create_call_at :
      (ty : L.Ty) (fn : L.Value) (ps : List L.Value) (x : Str) (ir : L.Ir)
      → P ir
      → P (L.create_call_at ty fn ps x ir).1
  pub create_call :
      (fn : L.Value) (ps : List L.Value) (x : Str) (ir : L.Ir)
      → P ir
      → P (L.create_call fn ps x ir).1
  pub create_bin_op :
      (op : BinaryOp) (a b : L.Value) (x : Str) (ir : L.Ir)
      → P ir
      → P (L.create_bin_op op a b x ir).1
  pub create_icmp_ne : (a b : L.Value) (ir : L.Ir) → P ir → P (L.create_icmp_ne a b ir).1
  pub create_br : (b : L.Block) (ir : L.Ir) → P ir → P (L.create_br b ir)
  pub create_cond_br :
      (v : L.Value) (t e : L.Block) (ir : L.Ir) → P ir → P (L.create_cond_br v t e ir)
  pub create_ret : (v : Option L.Value) (ir : L.Ir) → P ir → P (L.create_ret v ir)

module _ (L : Llvm) (P : L.Ir → Type 0) (keeps : IsKept L P) where
  -- The module of a state that is returned has the property.
  abbrev pub Keeps : Lowering (State L) → Type 0
  Keeps (lowered s) = P s.ir
  Keeps _ = Unit

  pub Keeps-bind :
      (r : Lowering (State L)) (f : State L → Lowering (State L))
      → Keeps r
      → ((s : State L) → P s.ir → Keeps (f s))
      → Keeps (bind r f)
  Keeps-bind (lowered s) f h k = k s h
  Keeps-bind null_pointer f h k = tt
  Keeps-bind out_of_range f h k = tt
  Keeps-bind assertion_failed f h k = tt
  Keeps-bind out_of_fuel f h k = tt

  pub Keeps-deref :
      {X : Type 0} (o : Option X) (f : X → Lowering (State L))
      → ((x : X) → Keeps (f x))
      → Keeps (deref o f)
  Keeps-deref none f k = tt
  Keeps-deref (some x) f k = k x

  Keeps-derefs :
      (os : List (Option L.Value)) (f : List L.Value → Lowering (State L))
      → ((vs : List L.Value) → Keeps (f vs))
      → Keeps (derefs L os f)
  Keeps-derefs [] f k = k []
  Keeps-derefs (o ∷ os) f k =
      Keeps-deref o _ (λ x. Keeps-derefs os (λ rest. f (x ∷ rest)) (λ rest. k (x ∷ rest)))

  visit_value-kept : (v : Value) (s : State L) → P s.ir → P (visit_value L v s).ir
  unfolding visit_value
  visit_value-kept (int_value i) s h = h
  visit_value-kept (var_value x) s h = h
  visit_value-kept (glob_value x) s h = go (L.get_function x s.ir) (L.get_global x s.ir)
    where
      go : (f g : Option L.Value) → P (visit_glob_value L x s f g).ir
      go (some f) g = keeps.create_ptr_to_int f L.int64_ty s.ir h
      go none (some g) = keeps.create_ptr_to_int g L.int64_ty s.ir h
      go none none = keeps.insert_global x L.int64_ty s.ir h

  visit_values-kept : (vs : List Value) (s : State L) → P s.ir → P (visit_values L vs s).1.ir
  unfolding visit_values
  visit_values-kept [] s h = h
  visit_values-kept (v ∷ vs) s h = visit_values-kept vs (visit_value L v s) (visit_value-kept v s h)

  store_at-Keeps : (slot : Option L.Value) (s : State L) → P s.ir → Keeps (store_at L slot s)
  store_at-Keeps slot s h =
      Keeps-deref s.value _ (λ v. Keeps-deref slot _ (λ p. keeps.create_store v p s.ir h))

  visit_jump-Keeps :
      (x : Var) (v : Option Value) (s : State L) → P s.ir → Keeps (visit_jump L x v s)
  visit_jump-Keeps x none s h =
      Keeps-deref (lookup x s.named_blocks) _ (λ b. keeps.create_br b s.ir h)
  visit_jump-Keeps x (some v) s h =
      Keeps-bind (store_at L (lookup x s.spill_slots) (visit_value L v s)) _
        (store_at-Keeps _ (visit_value L v s) (visit_value-kept v s h))
        (λ s₁ h1. Keeps-deref (lookup x s.named_blocks) _ (λ b. keeps.create_br b s₁.ir h1))

  call-Keeps :
      (x : Var) (vs : List Value) (ps : List L.Value) (o : Option L.Value) (f : Var) (s : State L)
      → P s.ir
      → Keeps (call L x vs ps o f s)
  call-Keeps x vs ps (some p) f s h =
      keeps.create_call_at _ _ ps x _ (keeps.create_int_to_ptr p _ s.ir h)
  call-Keeps x vs ps none f s h =
      Keeps-deref (L.get_function f s.ir) _ (λ fn. keeps.create_call fn ps x s.ir h)

  visit_app-Keeps :
      (x f : Var) (vs : List Value) (s : State L) → P s.ir → Keeps (visit_app L x f vs s)
  visit_app-Keeps x f vs s h =
      Keeps-derefs (visit_values L vs s).0 _
        (λ ps. call-Keeps x vs ps _ f _ (visit_values-kept vs s h))

  visit_bop-Keeps :
      (x : Var) (bop : Bop) (u v : Value) (s : State L) → P s.ir → Keeps (visit_bop L x bop u v s)
  visit_bop-Keeps x bop u v s h =
      let s₁ = visit_value L u s in
      let s₂ = visit_value L v s₁ in
      Keeps-deref s₁.value _ (λ a.
        Keeps-deref s₂.value _
          (λ b. keeps.create_bin_op _ a b x s₂.ir (visit_value-kept v s₁ (visit_value-kept u s h))))

  store_values-Keeps :
      (ptr : L.Value) (i : ℕ) (vs : List Value) (s : State L)
      → P s.ir
      → Keeps (store_values L ptr i vs s)
  unfolding store_values
  store_values-Keeps ptr i [] s h = h
  store_values-Keeps ptr i (v ∷ vs) s h =
      let (gep, s₁) = built L s (L.create_gep L.int64_ty ptr (L.int64 (pos i)) s.ir) in
      let s₂ = visit_value L v s₁ in
      Keeps-bind (store_at L (some gep) s₂) _
        (store_at-Keeps (some gep) s₂
          (visit_value-kept v s₁ (keeps.create_gep L.int64_ty ptr (L.int64 (pos i)) s.ir h)))
        (λ s₁ h1. store_values-Keeps ptr (suc i) vs s₁ h1)

  visit_tuple-Keeps :
      (x : Var) (vs : List Value) (s : State L) → P s.ir → Keeps (visit_tuple L x vs s)
  visit_tuple-Keeps x vs s h =
      store_values-Keeps _ 0 vs _ (
        keeps.create_ptr_to_int _ _ _
          (keeps.create_call _ _ x _ (keeps.insert_function _ _ s.ir h)))

  visit_proj-Keeps : (x t : Var) (i : ℕ) (s : State L) → P s.ir → Keeps (visit_proj L x t i s)
  visit_proj-Keeps x t i s h = Keeps-deref (lookup t s.named_values) _ (λ p.
      keeps.create_load _ _ x _ (keeps.create_gep _ _ _ _ (keeps.create_int_to_ptr p _ s.ir h)))

  store_condition-Keeps :
      (x : Var) (v : Option Value) (s : State L) → P s.ir → Keeps (store_condition L x v s)
  store_condition-Keeps x none s h = h
  store_condition-Keeps x (some v) s h = store_at-Keeps _ s h

  match_if_jump-Keeps :
      (c : Value) (t e : Anf.Exp) (j k : Option (Var × Option Value)) (s : State L)
      → P s.ir
      → Keeps (match_if_jump L c t e j k s)
  match_if_jump-Keeps c t e (some (x, u)) (some (y, v)) s h =
      let s₁ = visit_value L c s in
      Keeps-deref s₁.value _ (λ p.
        Keeps-bind _ _
          (store_condition-Keeps x u _ (keeps.create_icmp_ne p _ s₁.ir (visit_value-kept c s h)))
          (λ s₃ h3. Keeps-bind _ _ (store_condition-Keeps y v s₃ h3) (λ s₄ h4.
            Keeps-deref (lookup x s₄.named_blocks) _ (λ b.
              Keeps-deref (lookup y s₄.named_blocks) _
                (λ d. keeps.create_cond_br _ b d s₄.ir h4)))))
  match_if_jump-Keeps c t e (some j) none s h = visit_value-kept c s h
  match_if_jump-Keeps c t e none k s h = visit_value-kept c s h

  pipeline-Keeps :
      (vs : List Value) (rest : Anf.Exp) (r : Lowering (State L))
      → Keeps r
      → Keeps (bind r (λ s. lowered (pipeline L vs rest s)))
  pipeline-Keeps vs rest r h = Keeps-bind r _ h (λ s k. visit_values-kept vs s k)

  pub visit-Keeps : (e : Anf.Exp) (s : State L) → P s.ir → Keeps (visit L e s)
  unfolding visit
  visit-Keeps (Anf.halt_exp v) s h = keeps.create_ret _ _ (visit_value-kept v s h)
  visit-Keeps (Anf.fun_exp x ps body rest) s h = tt
  visit-Keeps (Anf.join_exp x slot body rest) s h = tt
  visit-Keeps (Anf.jump_exp x v) s h = visit_jump-Keeps x v s h
  visit-Keeps (Anf.app_exp x f vs rest) s h =
      pipeline-Keeps (var_value f ∷ vs) rest (visit_app L x f vs s) (visit_app-Keeps x f vs s h)
  visit-Keeps (Anf.bop_exp x bop u v rest) s h =
      pipeline-Keeps (u ∷ v ∷ []) rest (visit_bop L x bop u v s) (visit_bop-Keeps x bop u v s h)
  visit-Keeps (Anf.tuple_exp x vs rest) s h =
      pipeline-Keeps vs rest (visit_tuple L x vs s) (visit_tuple-Keeps x vs s h)
  visit-Keeps (Anf.proj_exp x t i rest) s h =
      pipeline-Keeps (var_value t ∷ []) rest (visit_proj L x t i s) (visit_proj-Keeps x t i s h)
  visit-Keeps (Anf.if_exp c t e) s h = match_if_jump-Keeps c t e (jump_of t) (jump_of e) s h
