-- ===== src/Lower/Compiled.antt =====
-- src/main.cpp and src/lower.cpp: expressions whose functions are lowered.
use lambcalc_cpp.Base.{ℕ, ◌+◌, ◌≤◌, ◌≡◌, ◌∙◌, true, some, none, Str, List, [], arith}
use lambcalc_cpp.Ast
use lambcalc_cpp.Anf.Success.{calls_no_literal, names_drawn}
use lambcalc_cpp.Anf.Scoped.{convert-IsScoped}
use lambcalc_cpp.Anf.Shape.{ifs, has_few_ifs, ifs-same, has_few_ifs-same, convert-IsShaped}
use lambcalc_cpp.Rename.Scope.{in_scope}
use lambcalc_cpp.Rename.Binding.{has_plain_params}
use lambcalc_cpp.Rename.Named.{has_own_params}
use lambcalc_cpp.Closure.Conversion.Recursive.{converted}
use lambcalc_cpp.Closure.Conversion.Scoped.{converted-IsScoped}
use lambcalc_cpp.Closure.Conversion.Shape.{converted-IsShaped}
use lambcalc_cpp.Hoist.{Function}
use lambcalc_cpp.Hoist.Recursive.{functions_of}
use lambcalc_cpp.Compile.{compiled, compile}
use lambcalc_cpp.Compile.Passes.{Passes, compile-Passes}
use lambcalc_cpp.Compile.Names.{Passes-HaveDistinctNames}
use lambcalc_cpp.Compile.Closed.{Passes-IsClosed}
use lambcalc_cpp.Lower.Library.{Llvm}
use lambcalc_cpp.Lower.{lowered}
use lambcalc_cpp.Lower.Module.{lower_module}
use lambcalc_cpp.Lower.Declared.{FindsFunctions, lower_module-lowered}
use lambcalc_cpp.Lower.Ordered.{AreAllOrdered, functions_of-AreAllOrdered}

Passes-AreAllOrdered :
    (exp : Ast.Exp) (n : ℕ) (h : Passes exp n)
    → has_plain_params exp ≡ true
    → has_own_params exp ≡ true
    → has_few_ifs exp ≡ true
    → ifs exp ≤ 1
    → AreAllOrdered (functions_of (converted h.anf 0).0)
Passes-AreAllOrdered exp n h plain own few one =
    let e = h.renamed_exp in
    let same : ifs e ≡ ifs exp = ifs-same e exp h.same in
    let shaped =
      convert-IsShaped e n (n + names_drawn exp) h.anf (has_few_ifs-same e exp h.same ∙ few)
        (omega arith) h.converts in
    let scopes = convert-IsScoped e n (n + names_drawn exp) h.anf h.converts in
    functions_of-AreAllOrdered (converted h.anf 0).0 (converted-IsShaped h.anf 0 1 shaped)
      (Passes-IsClosed exp n h plain own) (converted-IsScoped h.anf (λ x. ⊥) 0 scopes)

-- An expression whose variables are parameters of functions around them, which nowhere calls an integer
-- literal, no parameter of which ends in a digit or is called `tmp`, and which has at most one
-- conditional outside its functions and at most one in the body of each function, is compiled, and the
-- functions are lowered into a module that has no function yet: no pass throws, follows a null pointer
-- or fails an assertion, and all loops end.
pub compile-lower_module :
    (L : Llvm) (laws : FindsFunctions L) (ir : L.Ir) (exp : Ast.Exp) (n : ℕ)
    → ((x : Str) → L.get_function x ir ≡ none)
    → in_scope [] exp ≡ true
    → calls_no_literal exp ≡ true
    → has_plain_params exp ≡ true
    → has_own_params exp ≡ true
    → has_few_ifs exp ≡ true
    → ifs exp ≤ 1
    → (fs : List Function) × (ir' : L.Ir) × (compile exp n
        ≡ some (compiled fs (n + names_drawn exp)))
      × (lower_module L fs ir ≡ lowered ir')
compile-lower_module L laws ir exp n none_yet scoped ok plain own few one =
    let h = compile-Passes exp n scoped ok in
    let (ir', p) =
      lower_module-lowered L laws (functions_of (converted h.anf 0).0) ir
        (Passes-AreAllOrdered exp n h plain own few one) (Passes-HaveDistinctNames exp n h)
        none_yet in
    (functions_of (converted h.anf 0).0, ir', h.compiles, p)
