-- ===== src/Tests/ParserTests.antt =====
-- Inputs of test/parser.cpp, and the theorem on the parser.
use lambcalc_cpp.Base.{ℕ, ◌≡◌, refl, Str, bytes, str_eq, pos, arith}
use lambcalc_cpp.Ast
use lambcalc_cpp.Tests.LexerTests.{lowest}
use lambcalc_cpp.Lexer
use lambcalc_cpp.Lexer.{get_token}
use lambcalc_cpp.Parser
use lambcalc_cpp.Parser.Left.{left, Ends}
use lambcalc_cpp.Parser.Ends.{parse_bin_op-Ends}
use lambcalc_cpp.Parser.{
  Parsed, parsed, invalid_token, expected, out_of_fuel, default_infix_bp, parse_bin_op,
}

-- What is parsed, and `otherwise` for an error.
abbrev result : Ast.Exp → Parsed Ast.Exp → Ast.Exp
result otherwise (parsed e s) = e
result otherwise _ = otherwise

abbrev parse : Str → Ast.Exp
parse s =
    result (Ast.var_exp (bytes "otherwise"))
      (parse_bin_op default_infix_bp 60 0 (Parser.start (Lexer.start lowest s)))

abbrev v : Str → Ast.Exp
v s = Ast.var_exp s

abbrev n : ℕ → Ast.Exp
n i = Ast.int_exp (pos i)

-- `Parser.ParsesOperators`.
parse-operators :
    parse (bytes " (fn a => a + 1 + 2 * 3 * 4 + 5 ) ")
    ≡ Ast.lam_exp (bytes "a") (
        Ast.bop_exp Ast.plus
          (Ast.bop_exp Ast.plus
            (Ast.bop_exp Ast.plus (v (bytes "a")) (n 1))
            (Ast.bop_exp Ast.times (Ast.bop_exp Ast.times (n 2) (n 3)) (n 4)))
          (n 5))
unfolding parse_bin_op get_token str_eq Lexer.start Parser.start
parse-operators = refl

-- `Parser.ParsesApp`.
parse-app :
    parse (bytes "a b c + d e f")
    ≡ Ast.bop_exp Ast.plus
        (Ast.app_exp (Ast.app_exp (v (bytes "a")) (v (bytes "b"))) (v (bytes "c")))
        (Ast.app_exp (Ast.app_exp (v (bytes "d")) (v (bytes "e"))) (v (bytes "f")))
unfolding parse_bin_op get_token str_eq Lexer.start Parser.start
parse-app = refl

-- `Parser.ParseIfWithAppParens`.
parse-if :
    parse (bytes "if x then x * f (x - 1) else 1")
    ≡ Ast.if_exp
        (v (bytes "x"))
        (Ast.bop_exp Ast.times
          (v (bytes "x"))
          (Ast.app_exp (v (bytes "f")) (Ast.bop_exp Ast.minus (v (bytes "x")) (n 1))))
        (n 1)
unfolding parse_bin_op get_token str_eq Lexer.start Parser.start
parse-if = refl

abbrev unread : Parser.Parser
unread = Parser.start (Lexer.start lowest (bytes "f (x"))

parse_bin_op-Ends_example : Ends (left unread) (parse_bin_op default_infix_bp 19 0 unread)
unfolding Lexer.start Parser.start
parse_bin_op-Ends_example = parse_bin_op-Ends default_infix_bp 19 0 unread (omega arith)
