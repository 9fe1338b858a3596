-- ===== src/Lower.antt =====
-- src/lower.cpp: the state of the visitor that lowers expressions, its visits of values, and the
-- operations its handlers share. LLVM is the argument `L`. A task is the expression that is to be
-- visited: the loop changes none.
pub mod Library
pub mod Visitor
pub mod Module
pub mod Ready
pub mod Values
pub mod Handlers
pub mod Visits
pub mod Blocks
pub mod Functions
pub mod Straight
pub mod Ordered
pub mod Anything
pub mod Correct
pub mod Kept
pub mod Declared
pub mod Compiled
use lambcalc_cpp.Base.{
  ℕ, zero, suc, ◌*◌, Bool, true, false, Option, none, some, List, [], ◌∷◌, ◌++◌, Str, bytes, pos,
  map, str_eq, length, if◌then◌else◌,
}
use lambcalc_cpp.Ast.{Bop, plus, minus, times}
use lambcalc_cpp.Anf
use lambcalc_cpp.Anf.{Var, int_value, var_value, glob_value}
use lambcalc_cpp.Hoist.{Join, Function}
use lambcalc_cpp.Lower.Library.{Llvm, BinaryOp, add, sub, mul}

-- A `llvm::StringMap`: an entry hides those behind it that have the same key.
abbrev pub StringMap : Type 0 → Type 0
StringMap A = List (Var × A)

unfoldable pub lookup : {A : Type 0} → Var → StringMap A → Option A
lookup x [] = none
lookup x ((y, a) ∷ m) = if str_eq x y then some a else lookup x m

-- What lowering results in: a state, a null pointer where LLVM or the code needs an object, an
-- argument without a parameter, an assertion that failed, or fuel of a loop that did not suffice.
pub data Lowering (A : Type 0) : Type 0 where
  lowered : A → Lowering A
  null_pointer : Lowering A
  out_of_range : Lowering A
  assertion_failed : Lowering A
  out_of_fuel : Lowering A

abbrev pub bind : {A B : Type 0} → Lowering A → (A → Lowering B) → Lowering B
bind (lowered a) f = f a
bind null_pointer f = null_pointer
bind out_of_range f = out_of_range
bind assertion_failed f = assertion_failed
bind out_of_fuel f = out_of_fuel

abbrev pub deref : {A B : Type 0} → Option A → (A → Lowering B) → Lowering B
deref none f = null_pointer
deref (some a) f = f a

-- `value_`, `namedValues_`, `spillSlots_`, `namedBlocks_`, the module with its builder, and the
-- worklist. `operator[]` of a map inserts a null pointer for a missing key; where the code uses it the
-- pointer is needed at once, so that the entry is not modelled.
pub record State (L : Llvm) : Type 0 where
  pub ir : L.Ir
  pub value : Option L.Value
  pub named_values : StringMap L.Value
  pub spill_slots : StringMap L.Value
  pub named_blocks : StringMap L.Block
  pub worklist : List Anf.Exp

module _ (L : Llvm) where
  -- The state after an operation of the builder that returns a value.
  abbrev pub built : State L → L.Value × L.Ir → L.Value × State L
  built s (v, ir) = (v, record s { ir = ir })

  -- `namedValues_[name] = …`.
  abbrev pub named : Var → L.Value × State L → State L
  named x (v, s) = record s { named_values = (x, v) ∷ s.named_values }

  abbrev pub valued : L.Value × State L → State L
  valued (v, s) = record s { value = some v }

  abbrev pub visit_glob_value : Var → State L → Option L.Value → Option L.Value → State L
  visit_glob_value x s (some function) global =
      valued (built s (L.create_ptr_to_int function L.int64_ty s.ir))
  visit_glob_value x s none (some global) =
      valued (built s (L.create_ptr_to_int global L.int64_ty s.ir))
  visit_glob_value x s none none = valued (built s (L.insert_global x L.int64_ty s.ir))

  -- `visitValue`.
  unfoldable pub visit_value : Anf.Value → State L → State L
  unfolding lookup
  visit_value (int_value i) s = record s { value = some (L.int64 i) }
  visit_value (var_value x) s = record s { value = lookup x s.named_values }
  visit_value (glob_value x) s = visit_glob_value x s (L.get_function x s.ir) (L.get_global x s.ir)

  -- Values visited one after the other, and `value_` after each.
  unfoldable pub visit_values : List Anf.Value → State L → List (Option L.Value) × State L
  unfolding visit_value
  visit_values [] s = ([], s)
  visit_values (v ∷ vs) s =
      let s₁ = visit_value v s in let (rest, s₂) = visit_values vs s₁ in (s₁.value ∷ rest, s₂)

  abbrev pub derefs :
      {B : Type 0} → List (Option L.Value) → (List L.Value → Lowering B) → Lowering B
  derefs [] f = f []
  derefs (v ∷ vs) f = deref v (λ a. derefs vs (λ rest. f (a ∷ rest)))

  -- `getFunctionType`: the first parameter is a pointer.
  abbrev pub get_function_type : {A : Type 0} → List A → L.Ty
  get_function_type [] = L.function_ty L.int64_ty []
  get_function_type (p ∷ ps) = L.function_ty L.int64_ty (L.ptr_ty ∷ map (λ _. L.int64_ty) ps)

  -- `LLVMLowerPipeline::operator()` at an expression with a `rest`: its values are visited again, and
  -- the rest is pushed.
  abbrev pub pipeline : List Anf.Value → Anf.Exp → State L → State L
  pipeline vs rest s = let s' = (visit_values vs s).1 in record s' { worklist = rest ∷ s'.worklist }

  abbrev pub store_at : Option L.Value → State L → Lowering (State L)
  store_at slot s =
      deref s.value (λ v. deref slot (λ p. lowered (record s { ir = L.create_store v p s.ir })))
