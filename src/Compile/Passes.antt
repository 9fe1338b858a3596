-- ===== src/Compile/Passes.antt =====
-- src/main.cpp: the expressions between the passes, when none of them fails.
use mathlib.Core.Option.{some-injective}
use lambcalc_cpp.Base.{ℕ, ◌+◌, ◌≡◌, refl, ◌∙◌, sym, ap, true, some, []}
use lambcalc_cpp.Ast
use lambcalc_cpp.Anf
use lambcalc_cpp.Anf.Monad.{Outcome, done, throws, null_pointer}
use lambcalc_cpp.Anf.Convert.{convert}
use lambcalc_cpp.Anf.Defunc.{convert_defunc}
use lambcalc_cpp.Anf.Simulation.Failure.{Agrees}
use lambcalc_cpp.Anf.Equivalence.{convert_defunc-Agrees}
use lambcalc_cpp.Anf.Success.{calls_no_literal, is_literal, names_drawn, convert_defunc-returns}
use lambcalc_cpp.Rename.{rename, renamed}
use lambcalc_cpp.Rename.Scope.{in_scope, outline, rename-renamed}
use lambcalc_cpp.Closure.Conversion.Recursive.{converted}
use lambcalc_cpp.Closure.Conversion.Correct.{closure_convert-eq-converted}
use lambcalc_cpp.Hoist.Recursive.{functions_of}
use lambcalc_cpp.Hoist.Correct.{hoist-eq-functions_of}
use lambcalc_cpp.Compile.{compiled, hoist_converted, compile}

-- What the conversion to A-normal form needs to know of an expression is in its outline.
is_literal-outline : (e : Ast.Exp) → is_literal (outline e) ≡ is_literal e
is_literal-outline (Ast.int_exp i) = refl
is_literal-outline (Ast.var_exp x) = refl
is_literal-outline (Ast.lam_exp x body) = refl
is_literal-outline (Ast.app_exp fn arg) = refl
is_literal-outline (Ast.bop_exp bop a b) = refl
is_literal-outline (Ast.if_exp c t e) = refl

calls_no_literal-outline : (e : Ast.Exp) → calls_no_literal (outline e) ≡ calls_no_literal e
unfolding calls_no_literal
calls_no_literal-outline (Ast.int_exp i) = refl
calls_no_literal-outline (Ast.var_exp x) = refl
calls_no_literal-outline (Ast.lam_exp x body) = calls_no_literal-outline body
calls_no_literal-outline (Ast.app_exp fn arg) =
    rw (is_literal-outline fn, calls_no_literal-outline fn, calls_no_literal-outline arg)
calls_no_literal-outline (Ast.bop_exp bop a b) =
    rw (calls_no_literal-outline a, calls_no_literal-outline b)
calls_no_literal-outline (Ast.if_exp c t e) =
    rw (calls_no_literal-outline c, calls_no_literal-outline t, calls_no_literal-outline e)

names_drawn-outline : (e : Ast.Exp) → names_drawn (outline e) ≡ names_drawn e
names_drawn-outline (Ast.int_exp i) = refl
names_drawn-outline (Ast.var_exp x) = refl
names_drawn-outline (Ast.lam_exp x body) = rw (names_drawn-outline body)
names_drawn-outline (Ast.app_exp fn arg) = rw (names_drawn-outline fn, names_drawn-outline arg)
names_drawn-outline (Ast.bop_exp bop a b) = rw (names_drawn-outline a, names_drawn-outline b)
names_drawn-outline (Ast.if_exp c t e) =
    rw (names_drawn-outline c, names_drawn-outline t, names_drawn-outline e)

pub calls_no_literal-same :
    (e f : Ast.Exp) → outline e ≡ outline f → calls_no_literal e ≡ calls_no_literal f
calls_no_literal-same e f h =
    sym (calls_no_literal-outline e) ∙ ap calls_no_literal h ∙ calls_no_literal-outline f

names_drawn-same : (e f : Ast.Exp) → outline e ≡ outline f → names_drawn e ≡ names_drawn f
names_drawn-same e f h = sym (names_drawn-outline e) ∙ ap names_drawn h ∙ names_drawn-outline f

Agrees-done : (x : Outcome Anf.Exp) (e : Anf.Exp) (n : ℕ) → Agrees x (done e n) → x ≡ done e n
Agrees-done (done e' n') e n a = sym a
Agrees-done (throws msg m) e n a = absurd a
Agrees-done null_pointer e n a = sym a

-- What `convertDefunc` returns, the recursive conversion returns.
pub convert_defunc-convert :
    (root : Ast.Exp) (n m : ℕ) (e : Anf.Exp)
    → convert_defunc root n ≡ some (done e m)
    → convert root n ≡ done e m
convert_defunc-convert root n m e h =
    let (o, p, a) = convert_defunc-Agrees root n in
    let q : o ≡ done e m = some-injective _ _ (sym p ∙ h) in
    Agrees-done (convert root n) e m (rw q at a)

-- The expressions that `rename` and `convertDefunc` leave, and the functions that are made of them.
pub record Passes (exp : Ast.Exp) (n : ℕ) : Type 0 where
  pub renamed_exp : Ast.Exp
  pub anf : Anf.Exp
  pub renames : rename exp ≡ some (renamed renamed_exp)
  pub same : outline renamed_exp ≡ outline exp
  pub defuncs : convert_defunc renamed_exp n ≡ some (done anf (n + names_drawn exp))
  pub converts : convert renamed_exp n ≡ done anf (n + names_drawn exp)
  pub compiles :
      compile exp n ≡ some (compiled (functions_of (converted anf 0).0) (n + names_drawn exp))

hoist_converted-functions_of :
    (anf : Anf.Exp) (n : ℕ)
    → hoist_converted anf n ≡ some (compiled (functions_of (converted anf 0).0) n)
hoist_converted-functions_of anf n =
    rw (closure_convert-eq-converted anf 0, hoist-eq-functions_of (converted anf 0).0)

pub compile-Passes :
    (exp : Ast.Exp) (n : ℕ) → in_scope [] exp ≡ true → calls_no_literal exp ≡ true → Passes exp n
unfolding compile
compile-Passes exp n scoped ok =
    let (e, p, same) = rename-renamed exp scoped in
    let (anf, q) = convert_defunc-returns e n (calls_no_literal-same e exp same ∙ ok) in
    let names : n + names_drawn e ≡ n + names_drawn exp =
      ap (λ m. n + m) (names_drawn-same e exp same) in
    let q' : convert_defunc e n ≡ some (done anf (n + names_drawn exp)) =
      q ∙ ap (λ m. some (done anf m)) names in
    record {
      renamed_exp = e;
      anf = anf;
      renames = p;
      same = same;
      defuncs = q';
      converts = convert_defunc-convert e n (n + names_drawn exp) anf q';
      compiles = rw (p, q') (hoist_converted-functions_of anf (n + names_drawn exp));
    }
