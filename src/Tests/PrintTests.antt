-- ===== src/Tests/PrintTests.antt =====
-- What test/parser.cpp and test/anf.cpp expect to be printed, and the theorem on parsing it back.
use lambcalc_cpp.Base.{◌≡◌, refl, some, [], ◌∷◌, bytes, pos, int_to_string, to_string}
use lambcalc_cpp.Ast
use lambcalc_cpp.Ast.{Bop, plus, minus, times}
use lambcalc_cpp.Anf
use lambcalc_cpp.Anf.{int_value, var_value}
use lambcalc_cpp.Lexer
use lambcalc_cpp.Parser
use lambcalc_cpp.Parser.{default_infix_bp}
use lambcalc_cpp.Parser.RoundTrip.{HasPowers}

-- (fn a => (if (a - 1) then (f a) else 10))
abbrev conditional : Ast.Exp
conditional = Ast.lam_exp (bytes "a") (
    Ast.if_exp (Ast.bop_exp minus (Ast.var_exp (bytes "a")) (Ast.int_exp (pos 1)))
      (Ast.app_exp (Ast.var_exp (bytes "f")) (Ast.var_exp (bytes "a"))) (Ast.int_exp (pos 10)))

dump-conditional : Ast.Print.dump conditional ≡ bytes "(fn a => (if (a - 1) then (f a) else 10))"
unfolding Ast.Print.dump int_to_string
dump-conditional = refl

-- 2 * 3 + 4
dump-arithmetic :
    Anf.Print.dump (
      Anf.bop_exp (bytes "tmp0") times (int_value (pos 2)) (int_value (pos 3)) (
        Anf.bop_exp
          (bytes "tmp1")
          plus
          (var_value (bytes "tmp0"))
          (int_value (pos 4))
          (Anf.halt_exp (var_value (bytes "tmp1")))))
    ≡ bytes "BopExp { tmp0, *, 2, 3, BopExp { tmp1, +, tmp0, 4, HaltExp { tmp1 } } }"
unfolding Anf.Print.dump int_to_string
dump-arithmetic = refl

dump-function :
    Anf.Print.dump (
      Anf.fun_exp
        (bytes "tmp1")
        (bytes "x" ∷ bytes "y" ∷ [])
        (Anf.jump_exp (bytes "j") (some (var_value (bytes "x"))))
        (Anf.tuple_exp
          (bytes "t")
          []
          (Anf.proj_exp (bytes "p") (bytes "t") 12 (Anf.halt_exp (var_value (bytes "p"))))))
    ≡ bytes
        "FunExp { tmp1, [x, y], JumpExp { j, <x> }, TupleExp { t, [], ProjExp { p, t, 12, HaltExp { p } } } }"
unfolding Anf.Print.dump to_string
dump-function = refl

pub default_infix_bp-HasPowers : HasPowers default_infix_bp
default_infix_bp-HasPowers plus = (1, 2, refl)
default_infix_bp-HasPowers minus = (1, 2, refl)
default_infix_bp-HasPowers times = (3, 4, refl)
