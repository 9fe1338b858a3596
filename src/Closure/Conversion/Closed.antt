-- ===== src/Closure/Conversion/Closed.antt =====
-- src/convert.cpp: after closure conversion no function refers to a variable around it.
use lambcalc_cpp.Base.{
  ℕ, suc, ◌+◌, ◌≡◌, refl, Bool, true, false, ◌&&◌, ◌||◌, not, Option, none, some, List, [], ◌∷◌,
  map, Str, str_eq, bytes, numbered, arith,
}
use lambcalc_cpp.Anf
use lambcalc_cpp.Anf.{Var, Value, int_value, var_value, glob_value}
use lambcalc_cpp.VarSet.{contains}
use lambcalc_cpp.Closure.FreeVars.Meaning.{
  occurs, occurs_any, occurs_slot, is_slot, is_free, IsClean,
}
use lambcalc_cpp.Closure.FreeVars.Correct.{collect-Collects}
use lambcalc_cpp.Closure.Conversion.{projections, closure_convert}
use lambcalc_cpp.Closure.Conversion.Recursive.{captured, converted, rounds}
use lambcalc_cpp.Closure.Conversion.Correct.{closure_convert-eq-converted}

-- The variables that a value holds; the name of a global is none.
unfoldable pub is_var : Value → Str → Bool
is_var (int_value i) x = false
is_var (var_value y) x = str_eq x y
is_var (glob_value g) x = false

unfoldable pub is_var_any : List Value → Str → Bool
is_var_any [] x = false
is_var_any (v ∷ vs) x = is_var v x || is_var_any vs x

unfoldable pub is_var_slot : Option Value → Str → Bool
is_var_slot none x = false
is_var_slot (some v) x = is_var v x

-- A variable is used outside the scope of a binder of it.
unfoldable pub needs : Anf.Exp → Str → Bool
needs (Anf.halt_exp v) x = is_var v x
needs (Anf.fun_exp name params body rest) x =
    (needs rest x && not (str_eq x name)) || (needs body x && not (contains params x))
needs (Anf.join_exp name slot body rest) x =
    (needs rest x && not (str_eq x name)) || (needs body x && not (is_slot slot x))
needs (Anf.jump_exp join_name slot_value) x = is_var_slot slot_value x
needs (Anf.app_exp name fun_name param_values rest) x =
    str_eq x fun_name || (is_var_any param_values x || (needs rest x && not (str_eq x name)))
needs (Anf.bop_exp name bop param1 param2 rest) x =
    is_var param1 x || (is_var param2 x || (needs rest x && not (str_eq x name)))
needs (Anf.if_exp cond then_branch else_branch) x =
    is_var cond x || (needs then_branch x || needs else_branch x)
needs (Anf.tuple_exp name values rest) x =
    is_var_any values x || (needs rest x && not (str_eq x name))
needs (Anf.proj_exp name tuple index rest) x =
    str_eq x tuple || (needs rest x && not (str_eq x name))

-- The body of each function needs none but the function's parameters.
abbrev pub HasClosedFunctions : Anf.Exp → Type 0
HasClosedFunctions (Anf.fun_exp name params body rest) =
    ((x : Str) → needs body x ≡ true → contains params x ≡ true)
    × HasClosedFunctions body
    × HasClosedFunctions rest
HasClosedFunctions (Anf.join_exp name slot body rest) =
    HasClosedFunctions body × HasClosedFunctions rest
HasClosedFunctions (Anf.if_exp cond then_branch else_branch) =
    HasClosedFunctions then_branch × HasClosedFunctions else_branch
HasClosedFunctions (Anf.app_exp name fun_name param_values rest) = HasClosedFunctions rest
HasClosedFunctions (Anf.bop_exp name bop param1 param2 rest) = HasClosedFunctions rest
HasClosedFunctions (Anf.tuple_exp name values rest) = HasClosedFunctions rest
HasClosedFunctions (Anf.proj_exp name tuple index rest) = HasClosedFunctions rest
HasClosedFunctions (Anf.halt_exp value) = Unit
HasClosedFunctions (Anf.jump_exp join_name slot_value) = Unit

is_var→occurs : (v : Value) (x : Str) → is_var v x ≡ true → occurs v x ≡ true
unfolding is_var occurs
is_var→occurs (int_value i) x h = h
is_var→occurs (var_value y) x h = h
is_var→occurs (glob_value g) x h = cc

is_var_any→occurs_any :
    (vs : List Value) (x : Str) → is_var_any vs x ≡ true → occurs_any vs x ≡ true
unfolding is_var_any occurs_any
is_var_any→occurs_any [] x h = h
is_var_any→occurs_any (v ∷ vs) x h = ground (arith, is_var→occurs v x, is_var_any→occurs_any vs x)

is_var_slot→occurs_slot :
    (v : Option Value) (x : Str) → is_var_slot v x ≡ true → occurs_slot v x ≡ true
unfolding is_var_slot occurs_slot
is_var_slot→occurs_slot none x h = h
is_var_slot→occurs_slot (some v) x h = is_var→occurs v x h

is_var_any-map : (xs : List Var) (x : Str) → is_var_any (map var_value xs) x ≡ contains xs x
unfolding is_var_any is_var contains
is_var_any-map [] x = refl
is_var_any-map (y ∷ xs) x = ground (arith, is_var_any-map xs x)

-- What the projections in front of a body leave open.
needs-projections :
    (xs : List Var) (t : Var) (i : ℕ) (body : Anf.Exp) (x : Str)
    → needs (projections xs t i body) x ≡ true
    → str_eq x t ≡ false
    → (needs body x ≡ true) × (contains xs x ≡ false)
unfolding needs contains
needs-projections [] t i body x h ne = (h, refl)
needs-projections (y ∷ xs) t i body x h ne =
    ground (arith, needs-projections xs t (i + 1) (Anf.proj_exp y t i body) x h ne)

projections-HasClosedFunctions :
    (xs : List Var) (t : Var) (i : ℕ) (body : Anf.Exp)
    → HasClosedFunctions body
    → HasClosedFunctions (projections xs t i body)
projections-HasClosedFunctions [] t i body h = h
projections-HasClosedFunctions (y ∷ xs) t i body h =
    projections-HasClosedFunctions xs t (i + 1) (Anf.proj_exp y t i body) h

-- The variables captured are the free variables.
pub contains-captured :
    (name : Var) (params : List Var) (body rest : Anf.Exp)
    → IsClean (Anf.fun_exp name params body rest)
    → (x : Str)
    → contains (captured name params body rest) x ≡ is_free (Anf.fun_exp name params body rest) x
unfolding contains
contains-captured name params body rest c x = collect-Collects _ c [] (λ y b. refl) x

abbrev IsNoFreer : Anf.Exp → Anf.Exp → Type 0
IsNoFreer e' e = (x : Str) → needs e' x ≡ true → is_free e x ≡ true

converted-IsNoFreer : (e : Anf.Exp) (n : ℕ) → IsClean e → IsNoFreer (converted e n).0 e
unfolding converted needs is_free is_var_any is_var contains
converted-IsNoFreer (Anf.halt_exp v) n c x h = is_var→occurs v x h
converted-IsNoFreer (Anf.jump_exp j v) n c x h = is_var_slot→occurs_slot v x h
converted-IsNoFreer (Anf.fun_exp name params body rest) n (a, b, r) x h =
    let xs = captured name params body rest in
    let (rest', n₁) = converted rest (n + 1) in
    let body' = (converted body n₁).0 in
    ground (
      arith,
      contains-captured name params body rest (a, b, r) x,
      is_var_any-map xs x,
      needs-projections xs (numbered (bytes "closure") n) 1 body' x,
      converted-IsNoFreer rest (n + 1) r x,
      converted-IsNoFreer body n₁ b x,
    )
converted-IsNoFreer (Anf.join_exp name slot body rest) n (a, b, r) x h =
    ground
      (arith, converted-IsNoFreer rest n r x, converted-IsNoFreer body (converted rest n).1 b x)
converted-IsNoFreer (Anf.app_exp name f vs rest) n (a, r) x h =
    ground (arith, converted-IsNoFreer rest (n + 1) r x, is_var_any→occurs_any vs x)
converted-IsNoFreer (Anf.bop_exp name bop u v rest) n (a, r) x h =
    ground (arith, converted-IsNoFreer rest n r x, is_var→occurs u x, is_var→occurs v x)
converted-IsNoFreer (Anf.if_exp v t e) n (a, ct, ce) x h = ground (
  arith,
  converted-IsNoFreer e n ce x,
  converted-IsNoFreer t (converted e n).1 ct x,
  is_var→occurs v x,
)
converted-IsNoFreer (Anf.tuple_exp name vs rest) n (a, r) x h =
    ground (arith, converted-IsNoFreer rest n r x, is_var_any→occurs_any vs x)
converted-IsNoFreer (Anf.proj_exp name t i rest) n (a, r) x h =
    ground (arith, converted-IsNoFreer rest n r x)

-- The body of a converted function.
projections-closed :
    (name : Var) (params : List Var) (body rest : Anf.Exp) (n : ℕ) (t : Var)
    → IsClean (Anf.fun_exp name params body rest)
    → (x : Str)
    → needs (projections (captured name params body rest) t 1 (converted body n).0) x ≡ true
    → contains (t ∷ params) x ≡ true
unfolding is_free contains
projections-closed name params body rest n t (a, b, r) x h = ground (
  arith,
  contains-captured name params body rest (a, b, r) x,
  needs-projections (captured name params body rest) t 1 (converted body n).0 x,
  converted-IsNoFreer body n b x,
)

converted-HasClosedFunctions :
    (e : Anf.Exp) (n : ℕ) → IsClean e → HasClosedFunctions (converted e n).0
unfolding converted
converted-HasClosedFunctions (Anf.halt_exp v) n c = tt
converted-HasClosedFunctions (Anf.jump_exp j v) n c = tt
converted-HasClosedFunctions (Anf.fun_exp name params body rest) n (a, b, r) =
    let xs = captured name params body rest in
    let (rest', n₁) = converted rest (n + 1) in
    let body' = (converted body n₁).0 in
    (
      λ x. projections-closed name params body rest n₁ _ (a, b, r) x,
      projections-HasClosedFunctions xs _ 1 body' (converted-HasClosedFunctions body n₁ b),
      converted-HasClosedFunctions rest (n + 1) r,
    )
converted-HasClosedFunctions (Anf.join_exp name slot body rest) n (a, b, r) = (
  converted-HasClosedFunctions body (converted rest n).1 b,
  converted-HasClosedFunctions rest n r,
)
converted-HasClosedFunctions (Anf.app_exp name f vs rest) n (a, r) =
    converted-HasClosedFunctions rest (n + 1) r
converted-HasClosedFunctions (Anf.bop_exp name bop u v rest) n (a, r) =
    converted-HasClosedFunctions rest n r
converted-HasClosedFunctions (Anf.if_exp v t e) n (a, ct, ce) =
    (converted-HasClosedFunctions t (converted e n).1 ct, converted-HasClosedFunctions e n ce)
converted-HasClosedFunctions (Anf.tuple_exp name vs rest) n (a, r) =
    converted-HasClosedFunctions rest n r
converted-HasClosedFunctions (Anf.proj_exp name t i rest) n (a, r) =
    converted-HasClosedFunctions rest n r

-- If in no part of the tree a name is both bound and free, the loop of `closureConvert` ends, given
-- at least `rounds root 0 + 1` rounds, with a tree in which the body of each function needs no
-- variable but the function's parameters.
pub closure_convert-HasClosedFunctions :
    (root : Anf.Exp) (spare : ℕ)
    → IsClean root
    → (e : Anf.Exp) × (closure_convert (suc (rounds root spare)) root ≡ some e)
      × HasClosedFunctions e
closure_convert-HasClosedFunctions root spare c = (
  (converted root 0).0,
  closure_convert-eq-converted root spare,
  converted-HasClosedFunctions root 0 c,
)
