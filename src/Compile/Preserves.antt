-- ===== src/Compile/Preserves.antt =====
-- src/main.cpp: what an expression evaluates to, across the first two passes.
use mathlib.Core.Option.{some-injective}
use lambcalc_cpp.Base.{ℕ, ◌+◌, ◌≡◌, ◌∙◌, sym, ap, true, some, [], ℤ}
use lambcalc_cpp.Ast
use lambcalc_cpp.Ast.{Bop}
use lambcalc_cpp.Ast.Semantics as Source
use lambcalc_cpp.Ast.Semantics.{Evaluates}
use lambcalc_cpp.Anf
use lambcalc_cpp.Anf.Monad.{done}
use lambcalc_cpp.Anf.Defunc.{convert_defunc}
use lambcalc_cpp.Anf.Success.{calls_no_literal, names_drawn}
use lambcalc_cpp.Anf.Semantics.{Value, int, empty, no_joins, Runs}
use lambcalc_cpp.Anf.Determined.{Runs-determined}
use lambcalc_cpp.Anf.Preserves.{convert-Runs}
use lambcalc_cpp.Rename.{rename, renamed}
use lambcalc_cpp.Rename.Scope.{in_scope}
use lambcalc_cpp.Rename.Binding.{has_plain_params, nameless, rename-nameless}
use lambcalc_cpp.Rename.Named.{has_own_params, rename-IsNamed}
use lambcalc_cpp.Rename.Preserves.{Same-int, empties, Same-Evaluates}
use lambcalc_cpp.Compile.Passes.{Passes, compile-Passes}

-- The renamed expression is the same without names.
Passes-nameless :
    (exp : Ast.Exp) (n : ℕ) (h : Passes exp n)
    → in_scope [] exp ≡ true
    → has_plain_params exp ≡ true
    → nameless [] exp ≡ nameless [] h.renamed_exp
Passes-nameless exp n h scoped plain =
    let (e, p, q) = rename-nameless exp scoped plain in
    let r = some-injective _ _ (sym p ∙ h.renames) in
    let s : e ≡ h.renamed_exp = cc in sym q ∙ ap (nameless []) s

-- An expression that evaluates to an integer, whose variables are parameters of functions around them,
-- which nowhere calls an integer literal, and no parameter of which ends in a digit or is called `tmp`,
-- is renamed and converted to A-normal form, and the result results in this integer and in nothing else.
pub convert_defunc-Runs :
    (op : Bop → ℤ → ℤ → ℤ) (exp : Ast.Exp) (n : ℕ) (i : ℤ)
    → in_scope [] exp ≡ true
    → calls_no_literal exp ≡ true
    → has_plain_params exp ≡ true
    → has_own_params exp ≡ true
    → Evaluates op Source.empty exp (Source.int i)
    → (e : Ast.Exp) × (r : Anf.Exp) × (rename exp ≡ some (renamed e))
      × (convert_defunc e n ≡ some (done r (n + names_drawn exp)))
      × Runs op no_joins empty r (int i)
      × ((w : Value) → Runs op no_joins empty r w → w ≡ int i)
convert_defunc-Runs op exp n i scoped ok plain own evaluates =
    let h = compile-Passes exp n scoped ok in
    let (v, ev, s) =
      Same-Evaluates op [] [] Source.empty Source.empty exp h.renamed_exp (Source.int i) evaluates
        empties (Passes-nameless exp n h scoped plain) in
    let runs =
      convert-Runs op h.renamed_exp n (n + names_drawn exp) h.anf i
        (rename-IsNamed exp h.renamed_exp plain own h.renames) (rw (Same-int i v s) at ev)
        h.converts in
    (
      h.renamed_exp,
      h.anf,
      h.renames,
      h.defuncs,
      runs,
      λ w other. sym (Runs-determined op no_joins empty h.anf (int i) w runs other),
    )
