-- ===== src/Tests/SessionTests.antt =====
-- Sessions of `main` with the lowering into a module that records its instructions.
use lambcalc_cpp.Base.{
  ◌≡◌, refl, inl, inr, Option, some, List, [], ◌∷◌, Str, bytes, to_string, length, str_eq, arith,
}
use lambcalc_cpp.Ast
use lambcalc_cpp.Tests.LexerTests.{lowest}
use lambcalc_cpp.Lexer
use lambcalc_cpp.Lexer.{keyword, is_alpha, is_digit}
use lambcalc_cpp.VarSet.{contains}
use lambcalc_cpp.Anf.Success.{calls_no_literal}
use lambcalc_cpp.Parser
use lambcalc_cpp.Parser.{default_infix_bp}
use lambcalc_cpp.Repl.{Session, leaves, run}
use lambcalc_cpp.Repl.Answers.{answers}
use lambcalc_cpp.Repl.Evaluate.{evaluate}
use lambcalc_cpp.Repl.Sessions.{run-typed-leaves}
use lambcalc_cpp.Repl.Typed.{typed as typed_text}
use lambcalc_cpp.Tests.PrintTests.{default_infix_bp-HasPowers}
use lambcalc_cpp.Tests.Recorder.{Recorded, recorder, start}
use lambcalc_cpp.Tests.CompiledTests.{choosing, recorder-FindsFunctions}

-- What stands for the execution of a module: the number of its instructions.
abbrev execute : Recorded → Option Str
execute r = some (to_string (length r.code))

-- The conditional of CompiledTests, and a variable that nothing binds.
abbrev programs : List Ast.Exp
programs = choosing ∷ Ast.var_exp (bytes "z") ∷ []

run-typed-leaves_example :
    (s : Session) × (run (evaluate recorder start execute) default_infix_bp 5 (record {
      parser = Parser.start (Lexer.start lowest (typed_text programs));
      counter = 7;
      output = [];
    })
      ≡ some (leaves s))
    × (s.output ≡ answers (evaluate recorder start execute) programs 7)
unfolding keyword is_alpha is_digit str_eq calls_no_literal contains
run-typed-leaves_example =
    run-typed-leaves recorder start execute recorder-FindsFunctions (λ x. refl) default_infix_bp
      lowest programs 5 7 default_infix_bp-HasPowers
      (
        (
          (
            (refl, refl, refl),
            ((refl, refl, refl), ((refl, refl, refl), ((refl, refl, refl), refl), refl)),
          ),
          refl,
        ),
        refl,
        ((refl, refl, refl), refl, tt),
      )
      (inr (refl, refl, refl, omega arith), (inl refl, tt))
      (
        (λ n m fs ir p q. (to_string (length ir.code), refl)),
        ((λ n m fs ir p q. (to_string (length ir.code), refl)), tt),
      )
      (omega arith)
