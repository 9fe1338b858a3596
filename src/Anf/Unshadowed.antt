-- ===== src/Anf/Unshadowed.antt =====
-- include/anf.h and include/ast.h: expressions that use names that are bound around them only, and in
-- which no name is bound within the scope of another binder of it.
use lambcalc_cpp.Base.{◌≡◌, true, false, Option, none, some, List, [], ◌∷◌, ◌++◌, Str}
use lambcalc_cpp.Anf
use lambcalc_cpp.Anf.{Var, Value, int_value, var_value, glob_value}
use lambcalc_cpp.VarSet.{contains}

abbrev pub IsHeld : List Str → Value → Type 0
IsHeld xs (int_value i) = Unit
IsHeld xs (var_value x) = contains xs x ≡ true
IsHeld xs (glob_value x) = contains xs x ≡ true

abbrev pub AreHeld : List Str → List Value → Type 0
AreHeld xs [] = Unit
AreHeld xs (v ∷ vs) = IsHeld xs v × AreHeld xs vs

abbrev pub IsHeldSlot : List Str → Option Value → Type 0
IsHeldSlot xs none = Unit
IsHeldSlot xs (some v) = IsHeld xs v

abbrev pub IsNew : List Str → Var → Type 0
IsNew xs x = contains xs x ≡ false

abbrev pub AreNew : List Str → List Var → Type 0
AreNew xs [] = Unit
AreNew xs (y ∷ ys) = IsNew xs y × AreNew xs ys

abbrev pub slot_names : Option Var → List Var
slot_names none = []
slot_names (some x) = x ∷ []

-- Each variable that is used is one of `xs` or bound around, and none is bound that is one of them. The
-- name of a join point is no variable.
abbrev pub IsUnshadowed : List Str → Anf.Exp → Type 0
IsUnshadowed xs (Anf.fun_exp name params body rest) =
    IsNew xs name
    × AreNew xs params
    × IsUnshadowed (params ++ xs) body
    × IsUnshadowed (name ∷ xs) rest
IsUnshadowed xs (Anf.join_exp name slot body rest) =
    IsNew xs name
    × AreNew xs (slot_names slot)
    × IsUnshadowed (slot_names slot ++ xs) body
    × IsUnshadowed xs rest
IsUnshadowed xs (Anf.jump_exp join_name slot_value) = IsHeldSlot xs slot_value
IsUnshadowed xs (Anf.app_exp name fun_name param_values rest) =
    IsNew xs name
    × (contains xs fun_name ≡ true)
    × AreHeld xs param_values
    × IsUnshadowed (name ∷ xs) rest
IsUnshadowed xs (Anf.bop_exp name bop param1 param2 rest) =
    IsNew xs name × IsHeld xs param1 × IsHeld xs param2 × IsUnshadowed (name ∷ xs) rest
IsUnshadowed xs (Anf.if_exp cond t e) = IsHeld xs cond × IsUnshadowed xs t × IsUnshadowed xs e
IsUnshadowed xs (Anf.tuple_exp name values rest) =
    IsNew xs name × AreHeld xs values × IsUnshadowed (name ∷ xs) rest
IsUnshadowed xs (Anf.proj_exp name tuple index rest) =
    IsNew xs name × (contains xs tuple ≡ true) × IsUnshadowed (name ∷ xs) rest
IsUnshadowed xs (Anf.halt_exp value) = IsHeld xs value
