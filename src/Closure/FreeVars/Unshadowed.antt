-- ===== src/Closure/FreeVars/Unshadowed.antt =====
-- src/convert.cpp, `freeVars`: in an expression without shadowing no name is both bound and free.
use lambcalc_cpp.Base.{
  ◌≡◌, refl, inl, inr, Bool-cases, true, false, ◌||◌, Option, none, some, List, [], ◌∷◌, ◌++◌, Str,
  str_eq, str_eq_iff, arith,
}
use lambcalc_cpp.Anf
use lambcalc_cpp.Anf.{Var, Value, int_value, var_value, glob_value}
use lambcalc_cpp.Anf.Unshadowed.{
  IsHeld, AreHeld, IsHeldSlot, IsNew, AreNew, slot_names, IsUnshadowed,
}
use lambcalc_cpp.VarSet.{contains}
use lambcalc_cpp.Closure.FreeVars.Meaning.{
  occurs, occurs_any, occurs_slot, is_slot, is_free, binds, IsApart, IsClean,
}

contains-append :
    (ys xs : List Str) (x : Str) → contains (ys ++ xs) x ≡ (contains ys x || contains xs x)
unfolding contains
contains-append [] xs x = refl
contains-append (y ∷ ys) xs x = ground (arith, contains-append ys xs x)

IsHeld-contains :
    (xs : List Str) (v : Value) (x : Str) → IsHeld xs v → occurs v x ≡ true → contains xs x ≡ true
unfolding occurs
IsHeld-contains xs (int_value i) x h o = absurd (cc)
IsHeld-contains xs (var_value y) x h o = let e = (str_eq_iff x y).0 o in rw (e) h
IsHeld-contains xs (glob_value y) x h o = let e = (str_eq_iff x y).0 o in rw (e) h

AreHeld-contains :
    (xs : List Str) (vs : List Value) (x : Str)
    → AreHeld xs vs
    → occurs_any vs x ≡ true
    → contains xs x ≡ true
unfolding occurs_any
AreHeld-contains xs [] x h o = absurd (cc)
AreHeld-contains xs (v ∷ vs) x (h, hs) o =
    ground (arith, IsHeld-contains xs v x h, AreHeld-contains xs vs x hs)

IsHeldSlot-contains :
    (xs : List Str) (v : Option Value) (x : Str)
    → IsHeldSlot xs v
    → occurs_slot v x ≡ true
    → contains xs x ≡ true
unfolding occurs_slot
IsHeldSlot-contains xs none x h o = absurd (cc)
IsHeldSlot-contains xs (some v) x h o = IsHeld-contains xs v x h o

AreNew-contains :
    (xs ys : List Str) (x : Str) → AreNew xs ys → contains ys x ≡ true → contains xs x ≡ false
unfolding contains
AreNew-contains xs [] x h c = absurd (cc)
AreNew-contains xs (y ∷ ys) x (h, hs) c = elim (Bool-cases (str_eq x y)) [
  | inl e ↦ let q = (str_eq_iff x y).0 e in rw (q) h
  | inr e ↦ AreNew-contains xs ys x hs (rw e at c)
]

is_slot-contains : (slot : Option Var) (x : Str) → is_slot slot x ≡ contains (slot_names slot) x
unfolding is_slot contains
is_slot-contains none x = refl
is_slot-contains (some y) x = ground arith

IsNew-contains :
    (xs : List Str) (y x : Str) → IsNew xs y → str_eq x y ≡ true → contains xs x ≡ false
IsNew-contains xs y x h e = let q = (str_eq_iff x y).0 e in rw (q) h

pub is_free-contains :
    (e : Anf.Exp) (xs : List Str) (x : Str)
    → IsUnshadowed xs e
    → is_free e x ≡ true
    → contains xs x ≡ true
unfolding is_free contains
is_free-contains (Anf.fun_exp name params body rest) xs x (_, _, b, r) f = ground (
  arith,
  contains-append params xs x,
  is_free-contains body (params ++ xs) x b,
  is_free-contains rest (name ∷ xs) x r,
)
is_free-contains (Anf.join_exp name slot body rest) xs x (_, _, b, r) f = ground (
  arith,
  is_slot-contains slot x,
  contains-append (slot_names slot) xs x,
  is_free-contains body (slot_names slot ++ xs) x b,
  is_free-contains rest xs x r,
)
is_free-contains (Anf.jump_exp join_name slot_value) xs x h f =
    IsHeldSlot-contains xs slot_value x h f
is_free-contains (Anf.app_exp name fun_name param_values rest) xs x (_, g, vs, r) f =
    elim (Bool-cases (str_eq x fun_name)) [
      | inl e ↦ let q = (str_eq_iff x fun_name).0 e in rw (q) g
      | inr e ↦
          ground
            (arith, AreHeld-contains xs param_values x vs, is_free-contains rest (name ∷ xs) x r)
    ]
is_free-contains (Anf.bop_exp name bop param1 param2 rest) xs x (_, u, v, r) f = ground (
  arith,
  IsHeld-contains xs param1 x u,
  IsHeld-contains xs param2 x v,
  is_free-contains rest (name ∷ xs) x r,
)
is_free-contains (Anf.if_exp cond t e) xs x (c, ht, he) f =
    ground
      (arith, IsHeld-contains xs cond x c, is_free-contains t xs x ht, is_free-contains e xs x he)
is_free-contains (Anf.tuple_exp name values rest) xs x (_, vs, r) f =
    ground (arith, AreHeld-contains xs values x vs, is_free-contains rest (name ∷ xs) x r)
is_free-contains (Anf.proj_exp name tuple index rest) xs x (_, g, r) f =
    elim (Bool-cases (str_eq x tuple)) [
      | inl e ↦ let q = (str_eq_iff x tuple).0 e in rw (q) g
      | inr e ↦ ground (arith, is_free-contains rest (name ∷ xs) x r)
    ]
is_free-contains (Anf.halt_exp value) xs x h f = IsHeld-contains xs value x h f

binds-contains :
    (e : Anf.Exp) (xs : List Str) (x : Str)
    → IsUnshadowed xs e
    → binds e x ≡ true
    → contains xs x ≡ false
unfolding binds contains
binds-contains (Anf.fun_exp name params body rest) xs x (n, ps, b, r) f = ground (
  arith,
  IsNew-contains xs name x n,
  AreNew-contains xs params x ps,
  contains-append params xs x,
  binds-contains body (params ++ xs) x b,
  binds-contains rest (name ∷ xs) x r,
)
binds-contains (Anf.join_exp name slot body rest) xs x (n, ps, b, r) f = ground (
  arith,
  IsNew-contains xs name x n,
  AreNew-contains xs (slot_names slot) x ps,
  is_slot-contains slot x,
  contains-append (slot_names slot) xs x,
  binds-contains body (slot_names slot ++ xs) x b,
  binds-contains rest xs x r,
)
binds-contains (Anf.jump_exp join_name slot_value) xs x h f = absurd (cc)
binds-contains (Anf.app_exp name fun_name param_values rest) xs x (n, _, _, r) f =
    ground (arith, IsNew-contains xs name x n, binds-contains rest (name ∷ xs) x r)
binds-contains (Anf.bop_exp name bop param1 param2 rest) xs x (n, _, _, r) f =
    ground (arith, IsNew-contains xs name x n, binds-contains rest (name ∷ xs) x r)
binds-contains (Anf.if_exp cond t e) xs x (_, ht, he) f =
    ground (arith, binds-contains t xs x ht, binds-contains e xs x he)
binds-contains (Anf.tuple_exp name values rest) xs x (n, _, r) f =
    ground (arith, IsNew-contains xs name x n, binds-contains rest (name ∷ xs) x r)
binds-contains (Anf.proj_exp name tuple index rest) xs x (n, _, r) f =
    ground (arith, IsNew-contains xs name x n, binds-contains rest (name ∷ xs) x r)
binds-contains (Anf.halt_exp value) xs x h f = absurd (cc)

IsUnshadowed-IsApart : (e : Anf.Exp) (xs : List Str) → IsUnshadowed xs e → IsApart e
IsUnshadowed-IsApart e xs h x b = elim (Bool-cases (is_free e x)) [
  | inl f ↦ let p = is_free-contains e xs x h f in let q = binds-contains e xs x h b in absurd (cc)
  | inr f ↦ f
]

-- What `freeVars` and `closureConvert` need of an expression.
pub IsUnshadowed-IsClean : (e : Anf.Exp) (xs : List Str) → IsUnshadowed xs e → IsClean e
IsUnshadowed-IsClean (Anf.fun_exp name params body rest) xs (n, ps, b, r) = (
  IsUnshadowed-IsApart (Anf.fun_exp name params body rest) xs (n, ps, b, r),
  IsUnshadowed-IsClean body (params ++ xs) b,
  IsUnshadowed-IsClean rest (name ∷ xs) r,
)
IsUnshadowed-IsClean (Anf.join_exp name slot body rest) xs (n, ps, b, r) = (
  IsUnshadowed-IsApart (Anf.join_exp name slot body rest) xs (n, ps, b, r),
  IsUnshadowed-IsClean body (slot_names slot ++ xs) b,
  IsUnshadowed-IsClean rest xs r,
)
IsUnshadowed-IsClean (Anf.jump_exp join_name slot_value) xs h = tt
IsUnshadowed-IsClean (Anf.app_exp name fun_name param_values rest) xs (n, g, vs, r) = (
  IsUnshadowed-IsApart (Anf.app_exp name fun_name param_values rest) xs (n, g, vs, r),
  IsUnshadowed-IsClean rest (name ∷ xs) r,
)
IsUnshadowed-IsClean (Anf.bop_exp name bop param1 param2 rest) xs (n, u, v, r) = (
  IsUnshadowed-IsApart (Anf.bop_exp name bop param1 param2 rest) xs (n, u, v, r),
  IsUnshadowed-IsClean rest (name ∷ xs) r,
)
IsUnshadowed-IsClean (Anf.if_exp cond t e) xs (c, ht, he) = (
  IsUnshadowed-IsApart (Anf.if_exp cond t e) xs (c, ht, he),
  IsUnshadowed-IsClean t xs ht,
  IsUnshadowed-IsClean e xs he,
)
IsUnshadowed-IsClean (Anf.tuple_exp name values rest) xs (n, vs, r) = (
  IsUnshadowed-IsApart (Anf.tuple_exp name values rest) xs (n, vs, r),
  IsUnshadowed-IsClean rest (name ∷ xs) r,
)
IsUnshadowed-IsClean (Anf.proj_exp name tuple index rest) xs (n, g, r) = (
  IsUnshadowed-IsApart (Anf.proj_exp name tuple index rest) xs (n, g, r),
  IsUnshadowed-IsClean rest (name ∷ xs) r,
)
IsUnshadowed-IsClean (Anf.halt_exp value) xs h = tt
