-- ===== src/Repl/Programs.antt =====
-- src/main.cpp: the loop of `main` on printed expressions that are typed line by line.
use mathlib.Core.Option.{some-injective}
use lambcalc_cpp.Base.{
  ℕ, ℤ, ◌+◌, ◌*◌, ◌≤◌, ◌≡◌, refl, ◌∙◌, ap, Bool, true, false, Option, none, some, List, [], ◌∷◌,
  ◌++◌, Str, length, append_assoc,
}
use lambcalc_cpp.Ast
use lambcalc_cpp.Ast.Print.{dump}
use lambcalc_cpp.Lexer
use lambcalc_cpp.Lexer.{Token, eof, character}
use lambcalc_cpp.Parser
use lambcalc_cpp.Parser.{BindingPowers, Parsed, parsed, invalid_token, next_token, look, token_eq}
use lambcalc_cpp.Parser.Reads.{before, look-space}
use lambcalc_cpp.Parser.RoundTrip.{HasPowers}
use lambcalc_cpp.Parser.RoundTrip.Need.{IsPrintable}
use lambcalc_cpp.Anf.Success.{calls_no_literal}
use lambcalc_cpp.Rename.Scope.{in_scope}
use lambcalc_cpp.Hoist.{Function}
use lambcalc_cpp.Compile.Correct.{compile-uncaught}
use lambcalc_cpp.Repl.{
  Output, prompt, error_line, Session, Round, next, leaves, aborts, terminates, crashes, undefined,
  semicolon, invalid_token_reason, write, after_compile, after_parse, after, run,
}
use lambcalc_cpp.Repl.Answers.{AreTypable, all_return, answers_before, answers}
use lambcalc_cpp.Repl.Answering.{ended, AtText, run-Writes}
use lambcalc_cpp.Repl.Rounds.{step-read}
use lambcalc_cpp.Repl.Typed.{
  typed, typed_before, look-dump, parse_expression-typed, parse_expression-end, look-end,
}

-- What was written when the loop was left, or an exception ended it.
abbrev left_with : Round → Option (List Output)
left_with (leaves s) = some s.output
left_with _ = none

-- The end of the loop, which a crash is if not all that is compiled returns.
abbrev pub finish : Bool → Session → Round
finish true s = leaves s
finish false s = crashes s

abbrev terminated_with : Round → Option (List Output)
terminated_with (terminates msg s) = some s.output
terminated_with _ = none

module _ (evaluate : List Function → Option Str) (bp : BindingPowers) where
  at_end : AtText evaluate bp left_with [] (prompt ∷ error_line (invalid_token_reason eof) ∷ [])
  unfolding run
  at_end f s (e, lexer, c, q) =
      let r = look (before [] lexer c) in
      let (p, parse) = parse_expression-end bp lexer c in
      let leave =
        step-read evaluate bp s r e q (ap (λ t. token_eq t semicolon) (look-end lexer c))
        ∙ ap (after_parse evaluate (record (write prompt s) { parser = r.1 })) parse in
      (
        leaves (
            write (error_line (invalid_token_reason eof)) (record (write prompt s) { parser = p })),
        ap (after evaluate bp (run evaluate bp f)) leave,
        ap some (append_assoc s.output (prompt ∷ []) (error_line (invalid_token_reason eof) ∷ [])),
      )

  ended-finish :
      (b : Bool) (r : Round) (o : List Output)
      → ended left_with b r ≡ some o
      → (s : Session) × (r ≡ finish b s) × (s.output ≡ o)
  ended-finish true (leaves s) o h = (s, refl, some-injective _ _ h)
  ended-finish true (next s) o h = absurd (cc)
  ended-finish true (aborts t s) o h = absurd (cc)
  ended-finish true (terminates msg s) o h = absurd (cc)
  ended-finish true (crashes s) o h = absurd (cc)
  ended-finish true undefined o h = absurd (cc)
  ended-finish false (crashes s) o h = (s, refl, some-injective _ _ h)
  ended-finish false (leaves s) o h = absurd (cc)
  ended-finish false (next s) o h = absurd (cc)
  ended-finish false (aborts t s) o h = absurd (cc)
  ended-finish false (terminates msg s) o h = absurd (cc)
  ended-finish false undefined o h = absurd (cc)

  -- Expressions whose names are identifiers and no keywords, whose integers are not negative and below
  -- 2 ^ 31, and which call no integer literal, are printed and typed, each with a semicolon and a new line
  -- behind it. With
  -- binding powers for all operators, and in twice as many rounds as there are expressions, and one, the
  -- loop of `main` answers them in their order: it writes the prompt, and what the functions that are
  -- compiled evaluate to, or which name is not in scope, for each of them, and leaves at the end of the
  -- stream, which it reports behind one more prompt; if the functions of one do not return, the program
  -- ends with a crash behind the prompt for that one.
  pub run-typed :
      (beyond_int : ℕ → ℤ) (es : List Ast.Exp) (fuel n : ℕ)
      → HasPowers bp
      → AreTypable es
      → 2 * length es + 1 ≤ fuel
      → (s : Session) × (run evaluate bp fuel (record {
        parser = Parser.start (Lexer.start beyond_int (typed es));
        counter = n;
        output = [];
      })
          ≡ some (finish (all_return evaluate es n) s))
        × (s.output ≡ answers evaluate es n)
  unfolding Parser.start Lexer.start
  run-typed beyond_int es fuel n powers h le =
      let (r, p, q) =
        run-Writes evaluate bp left_with [] (prompt ∷ error_line (invalid_token_reason eof) ∷ [])
          at_end es fuel _ powers h
          (
            refl,
            Lexer.start beyond_int [],
            eof,
            look-space (typed es) (Lexer.start beyond_int []) eof,
          )
          le in
      let (s, e, o) = ended-finish (all_return evaluate es n) r (answers evaluate es n) q in
      (s, p ∙ ap some e, o)

  -- An expression that calls a literal.
  at_literal :
      (e : Ast.Exp) (more : Str)
      → HasPowers bp
      → IsPrintable e
      → in_scope [] e ≡ true
      → calls_no_literal e ≡ false
      → AtText evaluate bp terminated_with (dump e ++ 59 ∷ more) (prompt ∷ [])
  unfolding run
  at_literal e more powers h scoped bad f s (n, lexer, c, q) =
      let r = look (before (dump e ++ 59 ∷ more) lexer c) in
      let (lexer', c', parse) = parse_expression-typed bp e more lexer c powers h in
      let (msg, throw) = compile-uncaught e s.counter scoped bad in
      let s₁ = record (write prompt s) { parser = (look (before (59 ∷ more) lexer' c')).1 } in
      let read =
        step-read evaluate bp s r n q (look-dump bp e more lexer c h)
        ∙ ap (after_parse evaluate (record (write prompt s) { parser = r.1 })) parse
        ∙ ap (after_compile evaluate s₁) throw in
      (terminates msg s₁, ap (after evaluate bp (run evaluate bp f)) read, refl)

  terminated_with-some :
      (r : Round) (o : List Output)
      → terminated_with r ≡ some o
      → (msg : Str) × (s : Session) × (r ≡ terminates msg s) × (s.output ≡ o)
  terminated_with-some (next s) o h = absurd (cc)
  terminated_with-some (leaves s) o h = absurd (cc)
  terminated_with-some (aborts t s) o h = absurd (cc)
  terminated_with-some (terminates msg s) o h = (msg, s, refl, some-injective _ _ h)
  terminated_with-some (crashes s) o h = absurd (cc)
  terminated_with-some undefined o h = absurd (cc)

  -- Expressions whose names are identifiers and no keywords, whose integers are not negative and below
  -- 2 ^ 31, and which call no integer literal, and the functions of all of which return, are printed and
  -- typed, each with a semicolon and a new line behind it. Behind them stand one without free variables that
  -- calls an integer literal, and whose names and integers are of the same kinds, as it is printed, a
  -- semicolon and any text. With binding powers for all operators, and in twice as many rounds as there
  -- are expressions before that one, and one, or more, they are answered in their order, and behind the next
  -- prompt an exception that nothing catches ends the program.
  pub run-typed-literal :
      (beyond_int : ℕ → ℤ) (es : List Ast.Exp) (e : Ast.Exp) (more : Str) (fuel n : ℕ)
      → HasPowers bp
      → AreTypable es
      → all_return evaluate es n ≡ true
      → IsPrintable e
      → in_scope [] e ≡ true
      → calls_no_literal e ≡ false
      → 2 * length es + 1 ≤ fuel
      → (msg : Str) × (s : Session) × (run evaluate bp fuel (record {
        parser = Parser.start (Lexer.start beyond_int (typed_before es (dump e ++ 59 ∷ more)));
        counter = n;
        output = [];
      })
          ≡ some (terminates msg s))
        × (s.output ≡ answers_before evaluate (prompt ∷ []) es n)
  unfolding Parser.start Lexer.start
  run-typed-literal beyond_int es e more fuel n powers h all he scoped bad le =
      let text = dump e ++ 59 ∷ more in
      let (r, p, q) =
        run-Writes evaluate bp terminated_with text (prompt ∷ [])
          (at_literal e more powers he scoped bad) es fuel _ powers h
          (
            refl,
            Lexer.start beyond_int [],
            eof,
            look-space (typed_before es text) (Lexer.start beyond_int []) eof,
          )
          le in
      let (msg, s, x, o) =
        terminated_with-some r (answers_before evaluate (prompt ∷ []) es n) (rw all at q) in
      (msg, s, p ∙ ap some x, o)
