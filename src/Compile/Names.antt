-- ===== src/Compile/Names.antt =====
-- src/main.cpp: the functions that are compiled from an expression have distinct names.
use lambcalc_cpp.Base.{ℕ, ◌+◌, ◌≡◌, true, some, List, []}
use lambcalc_cpp.Ast
use lambcalc_cpp.Anf.Success.{calls_no_literal, names_drawn}
use lambcalc_cpp.Anf.Ranged.{convert-IsRanged}
use lambcalc_cpp.Rename.Scope.{in_scope}
use lambcalc_cpp.Closure.Conversion.Recursive.{converted}
use lambcalc_cpp.Closure.Conversion.Ranged.{converted-IsRanged}
use lambcalc_cpp.Hoist.{Function}
use lambcalc_cpp.Hoist.Recursive.{functions_of}
use lambcalc_cpp.Hoist.Names.{HaveDistinctNames, functions_of-HaveDistinctNames}
use lambcalc_cpp.Compile.{compiled, compile}
use lambcalc_cpp.Compile.Passes.{Passes, compile-Passes}

pub Passes-HaveDistinctNames :
    (exp : Ast.Exp) (n : ℕ) (h : Passes exp n)
    → HaveDistinctNames (functions_of (converted h.anf 0).0)
Passes-HaveDistinctNames exp n h =
    let ranged = convert-IsRanged h.renamed_exp n (n + names_drawn exp) h.anf h.converts in
    functions_of-HaveDistinctNames (converted h.anf 0).0 n (n + names_drawn exp)
      (converted-IsRanged h.anf 0 n (n + names_drawn exp) ranged)

-- An expression whose variables are parameters of functions around them, and which nowhere calls an
-- integer literal, is compiled to functions no two of which have the same name.
pub compile-HaveDistinctNames :
    (exp : Ast.Exp) (n : ℕ)
    → in_scope [] exp ≡ true
    → calls_no_literal exp ≡ true
    → (fs : List Function) × (compile exp n ≡ some (compiled fs (n + names_drawn exp)))
      × HaveDistinctNames fs
compile-HaveDistinctNames exp n scoped ok =
    let h = compile-Passes exp n scoped ok in
    (functions_of (converted h.anf 0).0, h.compiles, Passes-HaveDistinctNames exp n h)
