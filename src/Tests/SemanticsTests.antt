-- ===== src/Tests/SemanticsTests.antt =====
-- The theorem on what the first two passes leave of an expression, at a call with a conditional.
use lambcalc_cpp.Base.{◌+◌, ◌*◌, ◌≡◌, refl, some, bytes, str_eq, ℤ, pos}
use lambcalc_cpp.Ast
use lambcalc_cpp.Ast.{Bop, plus, times}
use lambcalc_cpp.Ast.Semantics as Source
use lambcalc_cpp.Ast.Semantics.{Evaluates, int_exp, var_exp, lam_exp, app_exp, bop_exp, if_then}
use lambcalc_cpp.VarSet.{contains}
use lambcalc_cpp.Anf
use lambcalc_cpp.Anf.Monad.{done}
use lambcalc_cpp.Anf.Defunc.{convert_defunc}
use lambcalc_cpp.Anf.Success.{calls_no_literal, names_drawn}
use lambcalc_cpp.Anf.Semantics.{Value, int, empty, no_joins, Runs}
use lambcalc_cpp.Rename.{rename, renamed}
use lambcalc_cpp.Compile.Preserves.{convert_defunc-Runs}
use lambcalc_cpp.Tests.CompiledTests.{choosing}

-- What `+` and `*` do on natural numbers.
abbrev naturals : Bop → ℤ → ℤ → ℤ
naturals plus (pos i) (pos j) = pos (i + j)
naturals times (pos i) (pos j) = pos (i * j)
naturals bop i j = i

-- (fn x => fn y => if y then x + 1 else 2) 3 4
abbrev chosen : Ast.Exp
chosen = Ast.app_exp choosing (Ast.int_exp (pos 4))

chosen-Evaluates : Evaluates naturals Source.empty chosen (Source.int (pos 4))
unfolding str_eq
chosen-Evaluates =
    app_exp (app_exp (lam_exp _ _) (int_exp (pos 3)) (lam_exp _ _)) (int_exp (pos 4)) (
      if_then (var_exp (bytes "y") refl) refl
        (bop_exp (var_exp (bytes "x") refl) (int_exp (pos 1))))

convert_defunc-Runs_example :
    (e : Ast.Exp) × (r : Anf.Exp) × (rename chosen ≡ some (renamed e))
    × (convert_defunc e 7 ≡ some (done r (7 + names_drawn chosen)))
    × Runs naturals no_joins empty r (int (pos 4))
    × ((w : Value) → Runs naturals no_joins empty r w → w ≡ int (pos 4))
unfolding contains str_eq calls_no_literal lambcalc_cpp.Lexer.is_digit
convert_defunc-Runs_example =
    convert_defunc-Runs naturals chosen 7 (pos 4) refl refl refl refl chosen-Evaluates
