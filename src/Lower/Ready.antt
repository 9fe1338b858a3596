-- ===== src/Lower/Ready.antt =====
-- src/lower.cpp: what an expression needs of the maps of the visitor, and how the handlers meet it.
use lambcalc_cpp.Base.{inl, inr, Bool-cases, Option, none, some, List, [], ◌∷◌, str_eq}
use lambcalc_cpp.Anf
use lambcalc_cpp.Anf.{Var, int_value, var_value, glob_value}
use lambcalc_cpp.Anf.Known.{Names, extend, IsKnown, AreKnown}
use lambcalc_cpp.Lower.{
  StringMap, lookup, Lowering, lowered, null_pointer, out_of_range, assertion_failed, out_of_fuel,
  bind, deref,
}

-- The names that have a value after an expression.
abbrev pub after : Anf.Exp → Names → Names
after (Anf.if_exp cond t e) K = after t (after e K)
after (Anf.bop_exp name bop param1 param2 rest) K = after rest (extend name K)
after (Anf.app_exp name fun_name param_values rest) K = after rest (extend name K)
after (Anf.tuple_exp name values rest) K = after rest (extend name K)
after (Anf.proj_exp name tuple index rest) K = after rest (extend name K)
after _ K = K

-- `A` is what a function or a join point needs, `S` has the join points with a slot, `B` those with a
-- block, and `K` the names that have a value.
module _ (A : Type 0) (B S : Names) where
  abbrev pub IsReady : Names → Anf.Exp → Type 0
  IsReady K (Anf.fun_exp name params body rest) = A
  IsReady K (Anf.join_exp name slot body rest) = A
  IsReady K (Anf.jump_exp join_name none) = B join_name
  IsReady K (Anf.jump_exp join_name (some v)) = B join_name × S join_name × IsKnown K v
  IsReady K (Anf.if_exp cond t e) = IsKnown K cond × IsReady K e × IsReady (after e K) t
  IsReady K (Anf.bop_exp name bop param1 param2 rest) =
      IsKnown K param1 × IsKnown K param2 × IsReady (extend name K) rest
  IsReady K (Anf.app_exp name fun_name param_values rest) =
      K fun_name × AreKnown K param_values × IsReady (extend name K) rest
  IsReady K (Anf.tuple_exp name values rest) =
      AreKnown (extend name K) values × IsReady (extend name K) rest
  IsReady K (Anf.proj_exp name tuple index rest) = K tuple × IsReady (extend name K) rest
  IsReady K (Anf.halt_exp value) = IsKnown K value

  -- Expressions that are visited one after the other.
  abbrev pub AreReady : Names → List Anf.Exp → Type 0
  AreReady K [] = Unit
  AreReady K (e ∷ w) = IsReady K e × AreReady (after e K) w

abbrev pub after_all : List Anf.Exp → Names → Names
after_all [] K = K
after_all (e ∷ w) K = after_all w (after e K)

-- What `P` says of the result; `A` is what is known where an assertion failed, and `N` where a pointer
-- is null. The loops have fuel enough.
abbrev pub Ends : {X : Type 0} → Type 0 → Type 0 → (X → Type 0) → Lowering X → Type 0
Ends A N P (lowered s) = P s
Ends A N P null_pointer = N
Ends A N P out_of_range = N
Ends A N P assertion_failed = A
Ends A N P out_of_fuel = ⊥

pub Ends-bind :
    {X Y : Type 0} (A N : Type 0) (P : X → Type 0) (Q : Y → Type 0) (r : Lowering X)
    (f : X → Lowering Y)
    → Ends A N P r
    → ((x : X) → P x → Ends A N Q (f x))
    → Ends A N Q (bind r f)
Ends-bind A N P Q (lowered x) f h k = k x h
Ends-bind A N P Q null_pointer f h k = h
Ends-bind A N P Q out_of_range f h k = h
Ends-bind A N P Q assertion_failed f h k = h
Ends-bind A N P Q out_of_fuel f h k = absurd h

-- A pointer that is not null, or `N`.
abbrev pub Has : {X : Type 0} → Type 0 → Option X → Type 0
Has N none = N
Has N (some x) = Unit

pub Has-any : {X : Type 0} (N : Type 0) (o : Option X) → N → Has N o
Has-any N none n = n
Has-any N (some x) n = tt

pub Ends-deref :
    {X Y : Type 0} (A N : Type 0) (Q : Y → Type 0) (o : Option X) (f : X → Lowering Y)
    → Has N o
    → ((x : X) → Ends A N Q (f x))
    → Ends A N Q (deref o f)
Ends-deref A N Q none f h k = h
Ends-deref A N Q (some x) f h k = k x

-- An entry that is added hides none.
pub lookup-Has :
    {X : Type 0} (N : Type 0) (x y : Var) (a : X) (m : StringMap X)
    → Has N (lookup x m)
    → Has N (lookup x ((y, a) ∷ m))
unfolding lookup
lookup-Has N x y a m h = elim (Bool-cases (str_eq x y)) [ inl e ↦ rw (e) tt | inr e ↦ rw (e) h ]
