-- ===== src/Compile/Closed.antt =====
-- src/main.cpp: the functions that are compiled from an expression use no variable of one another.
use lambcalc_cpp.Base.{ℕ, ◌+◌, ◌≡◌, true, some, List, []}
use lambcalc_cpp.Ast
use lambcalc_cpp.Anf.Success.{calls_no_literal, names_drawn}
use lambcalc_cpp.Anf.Unshadowed.{IsUnshadowed}
use lambcalc_cpp.Anf.Names.Hidden.{convert-IsUnshadowed}
use lambcalc_cpp.Anf.Known.{IsClosed}
use lambcalc_cpp.Rename.Scope.{in_scope}
use lambcalc_cpp.Rename.Binding.{has_plain_params}
use lambcalc_cpp.Rename.Named.{has_own_params, rename-IsNamed}
use lambcalc_cpp.VarSet.{contains}
use lambcalc_cpp.Closure.FreeVars.Unshadowed.{is_free-contains}
use lambcalc_cpp.Closure.Conversion.Recursive.{converted}
use lambcalc_cpp.Closure.Conversion.Known.{converted-IsClosed}
use lambcalc_cpp.Hoist.{Function}
use lambcalc_cpp.Hoist.Recursive.{functions_of}
use lambcalc_cpp.Hoist.Closed.{AreSelfContained}
use lambcalc_cpp.Hoist.Closed.Blocks.{functions_of-AreSelfContained}
use lambcalc_cpp.Compile.{compiled, compile}
use lambcalc_cpp.Compile.Passes.{Passes, compile-Passes}

-- What is converted to A-normal form has no free variables, and no variable in it hides another.
Passes-IsUnshadowed :
    (exp : Ast.Exp) (n : ℕ) (h : Passes exp n)
    → has_plain_params exp ≡ true
    → has_own_params exp ≡ true
    → IsUnshadowed [] h.anf
Passes-IsUnshadowed exp n h plain own =
    convert-IsUnshadowed h.renamed_exp n (n + names_drawn exp) h.anf
      (rename-IsNamed exp h.renamed_exp plain own h.renames) h.converts

pub Passes-IsClosed :
    (exp : Ast.Exp) (n : ℕ) (h : Passes exp n)
    → has_plain_params exp ≡ true
    → has_own_params exp ≡ true
    → IsClosed (λ x. ⊥) (converted h.anf 0).0
unfolding contains
Passes-IsClosed exp n h plain own =
    let u = Passes-IsUnshadowed exp n h plain own in
    converted-IsClosed h.anf 0 (λ x. ⊥) [] u
      λ x f. let p = is_free-contains h.anf [] x u f in absurd (cc)

-- An expression whose variables are parameters of functions around them, which nowhere calls an integer
-- literal, and no parameter of which ends in a digit or is called `tmp`, is compiled to functions each
-- of which uses only its own parameters and variables that its own blocks bind.
pub compile-AreSelfContained :
    (exp : Ast.Exp) (n : ℕ)
    → in_scope [] exp ≡ true
    → calls_no_literal exp ≡ true
    → has_plain_params exp ≡ true
    → has_own_params exp ≡ true
    → (fs : List Function) × (compile exp n ≡ some (compiled fs (n + names_drawn exp)))
      × AreSelfContained fs
compile-AreSelfContained exp n scoped ok plain own =
    let h = compile-Passes exp n scoped ok in
    let c = (converted h.anf 0).0 in
    (
      functions_of c,
      h.compiles,
      functions_of-AreSelfContained c (Passes-IsClosed exp n h plain own),
    )
