-- ===== src/Closure/FreeVars/Correct.antt =====
-- src/convert.cpp: `freeVars` computes the free variables of an expression whose names are apart.
use lambcalc_cpp.Base.{
  ◌≡◌, refl, Bool, true, false, ◌&&◌, ◌||◌, not, ◌∙◌, Option, none, some, List, [], ◌∷◌, Str,
  str_eq, arith,
}
use lambcalc_cpp.Anf
use lambcalc_cpp.Anf.{Var, Value, int_value, var_value, glob_value}
use lambcalc_cpp.VarSet.{erase, contains, contains-insert, contains-erase}
use lambcalc_cpp.Closure.FreeVars.{visit_value, visit_values, visit_slot, erase_all, free_vars}
use lambcalc_cpp.Closure.FreeVars.Recursive.{erase_slot, collect, free_vars-eq-collect}
use lambcalc_cpp.Closure.FreeVars.Meaning.{
  occurs, occurs_any, occurs_slot, is_slot, is_free, binds, IsApart, IsClean,
}

contains-visit_value :
    (v : Value) (s : List Str) (x : Str)
    → contains (visit_value v s) x ≡ (contains s x || occurs v x)
unfolding occurs
contains-visit_value (int_value i) s x = ground arith
contains-visit_value (var_value y) s x = ground (arith, contains-insert x y s)
contains-visit_value (glob_value g) s x = ground (arith, contains-insert x g s)

contains-visit_values :
    (vs : List Value) (s : List Str) (x : Str)
    → contains (visit_values vs s) x ≡ (contains s x || occurs_any vs x)
unfolding occurs_any
contains-visit_values [] s x = ground arith
contains-visit_values (v ∷ vs) s x =
    ground (arith, contains-visit_values vs (visit_value v s) x, contains-visit_value v s x)

contains-erase_all :
    (xs s : List Str) (x : Str)
    → contains (erase_all xs s) x ≡ (not (contains xs x) && contains s x)
unfolding contains
contains-erase_all [] s x = refl
contains-erase_all (y ∷ xs) s x =
    ground (arith, contains-erase_all xs (erase y s) x, contains-erase x y s)

-- The names that the expression binds are not in the set.
abbrev pub IsFresh : Anf.Exp → List Str → Type 0
IsFresh e s = (x : Str) → binds e x ≡ true → contains s x ≡ false

abbrev pub Collects : Anf.Exp → Type 0
Collects e =
    (s : List Str)
    → IsFresh e s
    → (x : Str) → contains (collect e s) x ≡ (contains s x || is_free e x)

contains-visit_slot :
    (v : Option Value) (s : List Str) (x : Str)
    → contains (visit_slot v s) x ≡ (contains s x || occurs_slot v x)
unfolding occurs_slot
contains-visit_slot none s x = ground arith
contains-visit_slot (some v) s x = contains-visit_value v s x

contains-erase_slot :
    (v : Option Str) (s : List Str) (x : Str)
    → contains (erase_slot v s) x ≡ (not (is_slot v x) && contains s x)
unfolding is_slot
contains-erase_slot none s x = ground arith
contains-erase_slot (some v) s x = contains-erase x v s

collect-fun :
    (name : Str) (params : List Str) (body rest : Anf.Exp)
    → IsApart (Anf.fun_exp name params body rest)
    → Collects body
    → Collects rest
    → Collects (Anf.fun_exp name params body rest)
unfolding collect is_free binds
collect-fun name params body rest apart ih_body ih_rest s fresh x =
    let s1 = collect rest s in
    let h1 = ih_rest s (λ y b. ground (arith, fresh y)) in
    let h2 =
      ih_body (erase name s1)
        (λ y b. ground (arith, contains-erase y name s1, h1 y, fresh y, apart y)) in
    ground (
      arith,
      contains-erase_all params (collect body (erase name s1)) x,
      h2 x,
      contains-erase x name s1,
      h1 x,
      fresh x,
      apart x,
    )

collect-join :
    (name : Str) (slot : Option Str) (body rest : Anf.Exp)
    → IsApart (Anf.join_exp name slot body rest)
    → Collects body
    → Collects rest
    → Collects (Anf.join_exp name slot body rest)
unfolding collect is_free binds
collect-join name slot body rest apart ih_body ih_rest s fresh x =
    let s1 = collect rest s in
    let h1 = ih_rest s (λ y b. ground (arith, fresh y)) in
    let h2 =
      ih_body (erase name s1)
        (λ y b. ground (arith, contains-erase y name s1, h1 y, fresh y, apart y)) in
    ground (
      arith,
      contains-erase_slot slot (collect body (erase name s1)) x,
      h2 x,
      contains-erase x name s1,
      h1 x,
      fresh x,
      apart x,
    )

-- A node that uses names, and then binds one for the rest.
module _ (name : Str) (rest : Anf.Exp) (uses : Str → Bool) (ih : Collects rest) where
  erase-Collects :
      (s s0 : List Str)
      → ((x : Str) → contains s0 x ≡ (contains s x || uses x))
      → ((x : Str) → (str_eq x name || binds rest x) ≡ true → contains s x ≡ false)
      → ((x : Str)
          → (str_eq x name || binds rest x) ≡ true
          → (uses x || (is_free rest x && not (str_eq x name))) ≡ false)
      → (x : Str)
      → contains (erase name (collect rest s0)) x
        ≡ (contains s x || (uses x || (is_free rest x && not (str_eq x name))))
  erase-Collects s s0 used fresh apart x =
      let h = ih s0 (λ y b. ground (arith, used y, fresh y, apart y)) in
      ground (arith, contains-erase x name (collect rest s0), h x, used x, fresh x, apart x)

collect-if :
    (cond : Value) (t f : Anf.Exp)
    → IsApart (Anf.if_exp cond t f)
    → Collects t
    → Collects f
    → Collects (Anf.if_exp cond t f)
unfolding collect is_free binds
collect-if cond t f apart ih_t ih_f s fresh x =
    let s1 = visit_value cond s in
    let h1 = ih_f s1 (λ y b. ground (arith, contains-visit_value cond s y, fresh y, apart y)) in
    let h2 =
      ih_t (collect f s1)
        (λ y b. ground (arith, contains-visit_value cond s y, h1 y, fresh y, apart y)) in
    ground (arith, h2 x, h1 x, contains-visit_value cond s x)

pub collect-Collects : (e : Anf.Exp) → IsClean e → Collects e
unfolding collect is_free binds occurs
collect-Collects (Anf.halt_exp v) c s fresh x = contains-visit_value v s x
collect-Collects (Anf.fun_exp name params body rest) (a, b, r) s fresh x =
    collect-fun name params body rest a (collect-Collects body b) (collect-Collects rest r) s fresh
      x
collect-Collects (Anf.join_exp name slot body rest) (a, b, r) s fresh x =
    collect-join name slot body rest a (collect-Collects body b) (collect-Collects rest r) s fresh x
collect-Collects (Anf.jump_exp j v) c s fresh x = contains-visit_slot v s x
collect-Collects (Anf.app_exp name f vs rest) (a, r) s fresh x =
    erase-Collects name rest (λ y. str_eq y f || occurs_any vs y) (collect-Collects rest r) s _
      (λ y.
        ground
          (arith, contains-visit_values vs (visit_value (var_value f) s) y, contains-insert y f s))
      fresh (λ y b. ground (arith, a y)) x
    ∙ ground arith
collect-Collects (Anf.bop_exp name bop u v rest) (a, r) s fresh x =
    erase-Collects name rest (λ y. occurs u y || occurs v y) (collect-Collects rest r) s _
      (λ y. ground (arith, contains-visit_value v (visit_value u s) y, contains-visit_value u s y))
      fresh (λ y b. ground (arith, a y)) x
    ∙ ground arith
collect-Collects (Anf.if_exp cond t f) (a, ct, cf) s fresh x =
    collect-if cond t f a (collect-Collects t ct) (collect-Collects f cf) s fresh x
collect-Collects (Anf.tuple_exp name vs rest) (a, r) s fresh x =
    erase-Collects name rest (occurs_any vs) (collect-Collects rest r) s _
      (contains-visit_values vs s) fresh a x
collect-Collects (Anf.proj_exp name tuple i rest) (a, r) s fresh x =
    erase-Collects name rest (λ y. str_eq y tuple) (collect-Collects rest r) s _
      (λ y. contains-visit_value (var_value tuple) s y) fresh a x

-- `freeVars` returns; a name is in the set that it returns exactly when it is free in the
-- expression, provided that in no part of the expression a name is both bound and free.
pub free_vars-is_free :
    (root : Anf.Exp)
    → IsClean root
    → (s : List Var) × (free_vars root ≡ some s) × ((x : Var) → contains s x ≡ is_free root x)
unfolding contains
free_vars-is_free root c =
    (collect root [], free_vars-eq-collect root, collect-Collects root c [] (λ x b. refl))
