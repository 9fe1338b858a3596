-- ===== src/Closure/FreeVars/Meaning.antt =====
-- src/convert.cpp, `freeVars`: the free variables of an expression, independent of the worklist.
use lambcalc_cpp.Base.{
  ◌≡◌, Bool, true, false, ◌&&◌, ◌||◌, not, Option, none, some, List, [], ◌∷◌, Str, str_eq,
}
use lambcalc_cpp.Anf
use lambcalc_cpp.Anf.{Var, Value, int_value, var_value, glob_value}
use lambcalc_cpp.VarSet.{contains}

-- The names of variables and globals that a value, or a list of values, holds.
unfoldable pub occurs : Value → Str → Bool
occurs (int_value i) x = false
occurs (var_value y) x = str_eq x y
occurs (glob_value g) x = str_eq x g

unfoldable pub occurs_any : List Value → Str → Bool
occurs_any [] x = false
occurs_any (v ∷ vs) x = occurs v x || occurs_any vs x

unfoldable pub occurs_slot : Option Value → Str → Bool
occurs_slot none x = false
occurs_slot (some v) x = occurs v x

unfoldable pub is_slot : Option Var → Str → Bool
is_slot none x = false
is_slot (some y) x = str_eq x y

-- A name is free where it is used outside the scope of a binder of it.
unfoldable pub is_free : Anf.Exp → Str → Bool
is_free (Anf.halt_exp v) x = occurs v x
is_free (Anf.fun_exp name params body rest) x =
    (is_free rest x && not (str_eq x name)) || (is_free body x && not (contains params x))
is_free (Anf.join_exp name slot body rest) x =
    (is_free rest x && not (str_eq x name)) || (is_free body x && not (is_slot slot x))
is_free (Anf.jump_exp join_name slot_value) x = occurs_slot slot_value x
is_free (Anf.app_exp name fun_name param_values rest) x =
    str_eq x fun_name || (occurs_any param_values x || (is_free rest x && not (str_eq x name)))
is_free (Anf.bop_exp name bop param1 param2 rest) x =
    occurs param1 x || (occurs param2 x || (is_free rest x && not (str_eq x name)))
is_free (Anf.if_exp cond then_branch else_branch) x =
    occurs cond x || (is_free then_branch x || is_free else_branch x)
is_free (Anf.tuple_exp name values rest) x =
    occurs_any values x || (is_free rest x && not (str_eq x name))
is_free (Anf.proj_exp name tuple index rest) x =
    str_eq x tuple || (is_free rest x && not (str_eq x name))

-- The name has a binder in the expression.
unfoldable pub binds : Anf.Exp → Str → Bool
binds (Anf.halt_exp v) x = false
binds (Anf.fun_exp name params body rest) x =
    str_eq x name || (contains params x || (binds body x || binds rest x))
binds (Anf.join_exp name slot body rest) x =
    str_eq x name || (is_slot slot x || (binds body x || binds rest x))
binds (Anf.jump_exp join_name slot_value) x = false
binds (Anf.app_exp name fun_name param_values rest) x = str_eq x name || binds rest x
binds (Anf.bop_exp name bop param1 param2 rest) x = str_eq x name || binds rest x
binds (Anf.if_exp cond then_branch else_branch) x = binds then_branch x || binds else_branch x
binds (Anf.tuple_exp name values rest) x = str_eq x name || binds rest x
binds (Anf.proj_exp name tuple index rest) x = str_eq x name || binds rest x

-- No name is bound in the expression and free in it.
abbrev pub IsApart : Anf.Exp → Type 0
IsApart e = (x : Str) → binds e x ≡ true → is_free e x ≡ false

-- No name is bound in a part of the expression and free in that part: what renaming is to ensure.
abbrev pub IsClean : Anf.Exp → Type 0
IsClean (Anf.halt_exp v) = Unit
IsClean (Anf.fun_exp name params body rest) =
    IsApart (Anf.fun_exp name params body rest) × IsClean body × IsClean rest
IsClean (Anf.join_exp name slot body rest) =
    IsApart (Anf.join_exp name slot body rest) × IsClean body × IsClean rest
IsClean (Anf.jump_exp join_name slot_value) = Unit
IsClean (Anf.app_exp name fun_name param_values rest) =
    IsApart (Anf.app_exp name fun_name param_values rest) × IsClean rest
IsClean (Anf.bop_exp name bop param1 param2 rest) =
    IsApart (Anf.bop_exp name bop param1 param2 rest) × IsClean rest
IsClean (Anf.if_exp cond then_branch else_branch) =
    IsApart (Anf.if_exp cond then_branch else_branch) × IsClean then_branch × IsClean else_branch
IsClean (Anf.tuple_exp name values rest) = IsApart (Anf.tuple_exp name values rest) × IsClean rest
IsClean (Anf.proj_exp name tuple index rest) =
    IsApart (Anf.proj_exp name tuple index rest) × IsClean rest
