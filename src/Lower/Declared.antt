-- ===== src/Lower/Declared.antt =====
-- src/lower.cpp: the functions that `lowerModule` declares are found, and those that are ordered are
-- lowered.
use lambcalc_cpp.Base.{
  ℕ, suc, ◌≡◌, refl, ◌∙◌, ap, false, none, some, List, [], ◌∷◌, map, Str, str_eq, length,
}
use lambcalc_cpp.Hoist.{Function}
use lambcalc_cpp.Hoist.Names.{NoneNamed, HaveDistinctNames}
use lambcalc_cpp.Anf.{Var}
use lambcalc_cpp.Lower.Library.{Llvm}
use lambcalc_cpp.Lower.{State, lowered, get_function_type}
use lambcalc_cpp.Lower.Module.{lower_body, lower_functions, declare, lower_module}
use lambcalc_cpp.Lower.Ordered.{AreAllOrdered}
use lambcalc_cpp.Lower.Kept.{IsKept}
use lambcalc_cpp.Lower.Kept.Functions.{lower_body-kept}
use lambcalc_cpp.Lower.Correct.{lower_body-lowered}

-- The module has a function of the name, with so many arguments.
abbrev pub IsFound : (L : Llvm) → Str → ℕ → L.Ir → Type 0
IsFound L x c ir =
    (fn : L.Value) × (L.get_function x ir ≡ some fn) × ((ir : L.Ir) → length (L.args fn ir) ≡ c)

-- What lowering relies on of LLVM: a function that is created where none has its name is found under it,
-- with an argument for each parameter of its type, and changes no other; and no operation takes a function
-- away.
pub record FindsFunctions (L : Llvm) : Type 0 where
  pub finds :
      (result : L.Ty) (params : List L.Ty) (x : Str) (ir : L.Ir)
      → L.get_function x ir ≡ none
      → IsFound L x (length params) (L.create_function (L.function_ty result params) x ir)
  pub adds_no_other :
      (ty : L.Ty) (x y : Str) (ir : L.Ir)
      → L.get_function x ir ≡ none
      → str_eq x y ≡ false
      → L.get_function y ir ≡ none
      → L.get_function y (L.create_function ty x ir) ≡ none
  pub keeps_declared :
      (ty : L.Ty) (x y : Str) (c : ℕ) (ir : L.Ir)
      → IsFound L y c ir
      → IsFound L y c (L.create_function ty x ir)
  pub keeps : (x : Str) (c : ℕ) → IsKept L (IsFound L x c)

length-map : {A B : Type 0} (f : A → B) (xs : List A) → length (map f xs) ≡ length xs
length-map f [] = refl
length-map f (x ∷ xs) = ap suc (length-map f xs)

module _ (L : Llvm) (laws : FindsFunctions L) where
  abbrev AreFound : L.Ir → List Function → Type 0
  AreFound ir [] = Unit
  AreFound ir (f ∷ fs) = IsFound L f.name (length f.params) ir × AreFound ir fs

  abbrev AreAbsent : L.Ir → List Function → Type 0
  AreAbsent ir [] = Unit
  AreAbsent ir (f ∷ fs) = (L.get_function f.name ir ≡ none) × AreAbsent ir fs

  declare-keeps :
      (fs : List Function) (x : Str) (c : ℕ) (ir : L.Ir)
      → IsFound L x c ir
      → IsFound L x c (declare L fs ir)
  unfolding declare
  declare-keeps [] x c ir h = h
  declare-keeps (f ∷ fs) x c ir h = declare-keeps fs x c _ (laws.keeps_declared _ f.name x c ir h)

  -- The type of a function has a parameter for each.
  create_function-finds :
      (params : List Var) (x : Str) (ir : L.Ir)
      → L.get_function x ir ≡ none
      → IsFound L x (length params) (L.create_function (get_function_type L params) x ir)
  create_function-finds [] x ir h = laws.finds _ [] x ir h
  create_function-finds (p ∷ ps) x ir h =
      let types = L.ptr_ty ∷ map (λ _. L.int64_ty) ps in
      let (fn, q, args) = laws.finds L.int64_ty types x ir h in
      (fn, q, λ ir. args ir ∙ ap suc (length-map (λ _. L.int64_ty) ps))

  AreAbsent-create :
      (fs : List Function) (ty : L.Ty) (x : Str) (ir : L.Ir)
      → L.get_function x ir ≡ none
      → NoneNamed x fs
      → AreAbsent ir fs
      → AreAbsent (L.create_function ty x ir) fs
  AreAbsent-create [] ty x ir h d a = tt
  AreAbsent-create (f ∷ fs) ty x ir h (d, ds) (a, absent) =
      (laws.adds_no_other ty x f.name ir h d a, AreAbsent-create fs ty x ir h ds absent)

  declare-AreFound :
      (fs : List Function) (ir : L.Ir)
      → HaveDistinctNames fs
      → AreAbsent ir fs
      → AreFound (declare L fs ir) fs
  unfolding declare
  declare-AreFound [] ir d a = tt
  declare-AreFound (f ∷ fs) ir (d, ds) (a, absent) =
      let ty = get_function_type L f.params in
      (
        declare-keeps fs f.name (length f.params) _ (create_function-finds f.params f.name ir a),
        declare-AreFound fs _ ds (AreAbsent-create fs ty f.name ir a d absent),
      )

  lower_body-AreFound :
      (fs : List Function) (f : Function) (fn : L.Value) (ir : L.Ir) (s : State L)
      → lower_body L f fn ir ≡ lowered s
      → AreFound ir fs
      → AreFound s.ir fs
  lower_body-AreFound [] f fn ir s e a = tt
  lower_body-AreFound (g ∷ fs) f fn ir s e (a, absent) = (
    lower_body-kept L (IsFound L g.name (length g.params)) (laws.keeps g.name (length g.params)) f
        fn ir s a e,
    lower_body-AreFound fs f fn ir s e absent,
  )

  lower_functions-lowered :
      (fs : List Function) (ir : L.Ir)
      → AreAllOrdered fs
      → AreFound ir fs
      → (ir' : L.Ir) × (lower_functions L fs ir ≡ lowered ir')
  unfolding lower_functions
  lower_functions-lowered [] ir o a = (ir, refl)
  lower_functions-lowered (f ∷ fs) ir (o, os) ((fn, q, args), absent) =
      let (s, p) = lower_body-lowered L f fn ir args o in
      let (ir', r) =
        lower_functions-lowered fs s.ir os (lower_body-AreFound fs f fn ir s p absent) in
      (ir', rw (q, p) r)

  all-AreAbsent :
      (fs : List Function) (ir : L.Ir) → ((x : Str) → L.get_function x ir ≡ none) → AreAbsent ir fs
  all-AreAbsent [] ir h = tt
  all-AreAbsent (f ∷ fs) ir h = (h f.name, all-AreAbsent fs ir h)

  -- Functions of distinct names, in order, are lowered where the module has no function yet.
  pub lower_module-lowered :
      (fs : List Function) (ir : L.Ir)
      → AreAllOrdered fs
      → HaveDistinctNames fs
      → ((x : Str) → L.get_function x ir ≡ none)
      → (ir' : L.Ir) × (lower_module L fs ir ≡ lowered ir')
  unfolding lower_module
  lower_module-lowered fs ir o d none_yet =
      lower_functions-lowered fs (declare L fs ir) o
        (declare-AreFound fs ir d (all-AreAbsent fs ir none_yet))
