-- ===== src/Compile/Correct.antt =====
-- src/main.cpp: the passes together.
use mathlib.Core.Option.{some-injective}
use lambcalc_cpp.Base.{ℕ, ◌+◌, ◌≡◌, ◌∙◌, sym, true, false, some, List, [], Str}
use lambcalc_cpp.Ast
use lambcalc_cpp.Anf.Success.{calls_no_literal, names_drawn, convert_defunc-throws}
use lambcalc_cpp.Anf.Scoped.{convert-IsScoped}
use lambcalc_cpp.Rename.Scope.{in_scope, rename-renamed, rename-not_in_scope}
use lambcalc_cpp.Closure.Conversion.Recursive.{converted}
use lambcalc_cpp.Closure.Conversion.Scoped.{converted-IsScoped}
use lambcalc_cpp.Hoist.{Function}
use lambcalc_cpp.Hoist.Blocks.{AreComplete, hoist-AreComplete}
use lambcalc_cpp.Hoist.Recursive.{functions_of}
use lambcalc_cpp.Hoist.Correct.{hoist-eq-functions_of}
use lambcalc_cpp.Compile.Passes.{calls_no_literal-same, compile-Passes}
use lambcalc_cpp.Compile.{compiled, reports, uncaught, compile}

-- An expression whose variables are parameters of functions around them, and which nowhere calls an
-- integer literal, is compiled: no loop runs out of its bound, no pass throws or follows a pointer
-- that leads nowhere, the static counter moves on by `names_drawn`, and the blocks of the resulting
-- functions hold no functions or join points and jump to blocks of their own function only.
pub compile-AreComplete :
    (exp : Ast.Exp) (n : ℕ)
    → in_scope [] exp ≡ true
    → calls_no_literal exp ≡ true
    → (fs : List Function) × (compile exp n ≡ some (compiled fs (n + names_drawn exp)))
      × AreComplete fs
compile-AreComplete exp n scoped ok =
    let h = compile-Passes exp n scoped ok in
    let c = (converted h.anf 0).0 in
    let scopes = convert-IsScoped h.renamed_exp n (n + names_drawn exp) h.anf h.converts in
    let (fs, p, complete) = hoist-AreComplete c (converted-IsScoped h.anf (λ x. ⊥) 0 scopes) in
    let same : fs ≡ functions_of c = some-injective _ _ (sym p ∙ hoist-eq-functions_of c) in
    (functions_of c, h.compiles, rw same at complete)

-- An expression whose variables are parameters of functions around them, and which calls an integer
-- literal somewhere, ends the program: the exception of `convertDefunc` is not caught.
pub compile-uncaught :
    (exp : Ast.Exp) (n : ℕ)
    → in_scope [] exp ≡ true
    → calls_no_literal exp ≡ false
    → (msg : Str) × (compile exp n ≡ some (uncaught msg))
unfolding compile
compile-uncaught exp n scoped bad =
    let (e, p, same) = rename-renamed exp scoped in
    let (msg, m, q) = convert_defunc-throws e n (calls_no_literal-same e exp same ∙ bad) in
    (msg, rw (p, q))

pub compile-reports :
    (exp : Ast.Exp) (n : ℕ)
    → in_scope [] exp ≡ false
    → (x : Str) × (compile exp n ≡ some (reports x))
unfolding compile
compile-reports exp n unscoped = let (x, p) = rename-not_in_scope exp unscoped in (x, rw (p))
