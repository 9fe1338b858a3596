-- ===== src/Tests/ReplTests.antt =====
-- Sessions of `main`, and the theorem on its loop.
use lambcalc_cpp.Base.{
  ◌≡◌, refl, some, List, [], ◌∷◌, Str, bytes, pos, arith, ◌++◌, Option, str_eq, int_to_string,
  to_string,
}
use lambcalc_cpp.Ast
use lambcalc_cpp.Ast.Print.{dump}
use lambcalc_cpp.Tests.LexerTests.{lowest}
use lambcalc_cpp.Lexer
use lambcalc_cpp.Lexer.{get_token}
use lambcalc_cpp.Compile.{compile}
use lambcalc_cpp.VarSet.{contains}
use lambcalc_cpp.Rename
use lambcalc_cpp.Rename.{rename}
use lambcalc_cpp.Parser.Expression.{parse_expression}
use lambcalc_cpp.Anf.Defunc
use lambcalc_cpp.Anf.Defunc.{convert_defunc}
use lambcalc_cpp.Parser
use lambcalc_cpp.Parser.{default_infix_bp, parse_bin_op}
use lambcalc_cpp.Hoist.{Function}
use lambcalc_cpp.Repl.{
  Session, Round, leaves, terminates, Output, prompt, error_line, run, evaluated_to,
}
use lambcalc_cpp.Lexer.{keyword, is_alpha, is_digit}
use lambcalc_cpp.Anf.Success.{calls_no_literal}
use lambcalc_cpp.Tests.PrintTests.{default_infix_bp-HasPowers}
use lambcalc_cpp.Repl.Typed.{typed as typed_text, typed_before}
use lambcalc_cpp.Repl.Answers.{answers, answers_before, all_return}
use lambcalc_cpp.Repl.Programs.{finish, run-typed, run-typed-literal}
use lambcalc_cpp.Repl.Ends.{IsEnd, run-IsEnd}

-- What stands for the compiled program: the names of its functions.
abbrev names_of : List Function → Str
names_of [] = []
names_of (f ∷ fs) = f.name ++ bytes " " ++ names_of fs

abbrev names : List Function → Option Str
names fs = some (names_of fs)

abbrev session : Str → Session
session s = record { parser = Parser.start (Lexer.start lowest s); counter = 0; output = [] }

abbrev typed : Session
typed = session (bytes "1+2; x) ")

run-IsEnd_example : (r : Round) × (run names default_infix_bp 20 typed ≡ some r) × IsEnd r
unfolding Lexer.start Parser.start
run-IsEnd_example = run-IsEnd names default_infix_bp 20 typed (omega arith)

abbrev written : Option Round → List Output
written (some (leaves s)) = s.output
written _ = []

-- A sum, a name out of scope, a parenthesis that nothing opened, and the end of the stream.
run-session :
    written (run names default_infix_bp 20 typed)
    ≡ prompt
      ∷ evaluated_to (bytes "main ")
      ∷ prompt
      ∷ error_line (bytes "x is not in scope")
      ∷ prompt
      ∷ error_line (bytes "Invalid token: 41")
      ∷ prompt
      ∷ error_line (bytes "Invalid token: -1")
      ∷ []
unfolding run parse_expression parse_bin_op get_token str_eq Lexer.start Parser.start compile rename
    Rename.perform Rename.run convert_defunc Defunc.step int_to_string to_string contains
    lambcalc_cpp.Ast.Links.get lambcalc_cpp.Closure.Conversion.closure_convert
    lambcalc_cpp.Closure.Conversion.perform lambcalc_cpp.Anf.Links.get lambcalc_cpp.Hoist.hoist
run-session = refl

-- 1 and the identity, applied to a name that nothing binds.
abbrev programs : List Ast.Exp
programs =
    Ast.int_exp (pos 1)
    ∷ Ast.app_exp (Ast.lam_exp (bytes "x") (Ast.var_exp (bytes "x"))) (Ast.var_exp (bytes "y"))
    ∷ []

run-typed_example :
    (s : Session) × (run names default_infix_bp 5 (record {
      parser = Parser.start (Lexer.start lowest (typed_text programs));
      counter = 7;
      output = [];
    })
      ≡ some (finish (all_return names programs 7) s))
    × (s.output ≡ answers names programs 7)
unfolding keyword is_alpha is_digit str_eq calls_no_literal
run-typed_example =
    run-typed names default_infix_bp lowest programs 5 7 default_infix_bp-HasPowers
      (refl, refl, ((((refl, refl, refl), (refl, refl, refl)), (refl, refl, refl)), refl, tt))
      (omega arith)

-- Behind 1, the program 1 2 ends the session.
run-typed-literal_example :
    (msg : Str) × (s : Session) × (run names default_infix_bp 3 (record {
      parser = Parser.start (
          Lexer.start lowest (
            typed_before
              (Ast.int_exp (pos 1) ∷ [])
              (dump (Ast.app_exp (Ast.int_exp (pos 1)) (Ast.int_exp (pos 2))) ++ 59 ∷ bytes "3;")));
      counter = 7;
      output = [];
    })
      ≡ some (terminates msg s))
    × (s.output ≡ answers_before names (prompt ∷ []) (Ast.int_exp (pos 1) ∷ []) 7)
unfolding calls_no_literal compile rename lambcalc_cpp.Ast.Links.get convert_defunc Defunc.step
    lambcalc_cpp.Closure.Conversion.closure_convert lambcalc_cpp.Closure.Conversion.perform
    lambcalc_cpp.Anf.Links.get lambcalc_cpp.Hoist.hoist
run-typed-literal_example =
    run-typed-literal names default_infix_bp lowest (Ast.int_exp (pos 1) ∷ [])
      (Ast.app_exp (Ast.int_exp (pos 1)) (Ast.int_exp (pos 2))) (bytes "3;") 3 7
      default_infix_bp-HasPowers (refl, refl, tt) refl (refl, refl) refl refl (omega arith)
