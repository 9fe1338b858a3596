-- ===== src/Repl/Answering.antt =====
-- src/main.cpp: the rounds of the loop of `main` for printed expressions that are typed in front of a text.
use lambcalc_cpp.Base.{
  ℕ, zero, suc, ◌+◌, ◌*◌, ◌≤◌, ◌≡◌, refl, ◌∙◌, ap, Bool, true, false, Option, none, some, List, [],
  ◌∷◌, ◌++◌, Str, length, append_assoc, arith,
}
use lambcalc_cpp.Ast
use lambcalc_cpp.Lexer
use lambcalc_cpp.Lexer.{Token, eof, character}
use lambcalc_cpp.Parser
use lambcalc_cpp.Parser.{BindingPowers, Parsed, parsed, invalid_token, next_token, look, token_eq}
use lambcalc_cpp.Parser.Reads.{before}
use lambcalc_cpp.Parser.RoundTrip.{HasPowers}
use lambcalc_cpp.Hoist.{Function}
use lambcalc_cpp.Compile.{Compiled, compiled, reports, uncaught, invalid_pointer, compile}
use lambcalc_cpp.Repl.{
  Output, prompt, error_line, evaluated_to, Session, Round, semicolon, not_in_scope_reason, write,
  crashes, after_evaluate, after_compile, after_parse, after, run,
}
use lambcalc_cpp.Repl.Answers.{
  IsAnswered, compile-IsAnswered, AreTypable, answer_value, answer, answers_before, value_returns,
  returns, all_return,
}
use lambcalc_cpp.Repl.Rounds.{step-read, step-semicolon}
use lambcalc_cpp.Repl.Typed.{typed_before, look-newline, look-dump, parse_expression-typed}

-- What was written when lowering or the compiled code did not return.
abbrev pub crashed_with : Round → Option (List Output)
crashed_with (crashes s) = some s.output
crashed_with _ = none

abbrev pub ended : (Round → Option (List Output)) → Bool → Round → Option (List Output)
ended written true r = written r
ended written false r = crashed_with r

module _ (evaluate : List Function → Option Str) (bp : BindingPowers) where
  module _ (written : Round → Option (List Output)) (text : Str) (last : List Output) where
    -- The parser stands before the expressions.
    abbrev pub IsBefore : List Ast.Exp → Parser.Parser → Type 0
    IsBefore es p =
        (p.peek_token ≡ none)
        × (lexer : Lexer.Lexer) × (c : Token) × (look p
            ≡ look (before (typed_before es text) lexer c))

    -- The loop ends, with a crash if not all that is compiled returns, and has written these.
    abbrev pub Writes : Bool → List Output → Option Round → Type 0
    Writes b o r = (x : Round) × (r ≡ some x) × (ended written b x ≡ some o)

    -- What follows the semicolon behind an expression.
    after_semicolon-Writes :
        (f : ℕ) (es : List Ast.Exp) (b : Bool) (o : List Output) (s : Session) (lexer : Lexer.Lexer)
        (c : Token)
        → Writes b o (
            run evaluate bp f
              (record s { parser = before (10 ∷ typed_before es text) lexer (character 59) }))
        → Writes b o (
            run evaluate bp
              (suc f)
              (record s { parser = (look (before (59 ∷ 10 ∷ typed_before es text) lexer c)).1 }))
    unfolding run
    after_semicolon-Writes f es b o s lexer c (s', p, q) = (
      s',
      ap (after evaluate bp (run evaluate bp f))
            (step-semicolon evaluate bp s (10 ∷ typed_before es text) lexer c)
          ∙ p,
      q,
    )

    Writes-append :
        (t : Bool) (os : List Output) (a b : Output) (rest : List Output) {r : Option Round}
        → Writes t (((os ++ a ∷ []) ++ b ∷ []) ++ rest) r
        → Writes t (os ++ a ∷ b ∷ rest) r
    Writes-append t os a b rest (s, p, q) = (
      s,
      p,
      q ∙ ap some (append_assoc (os ++ a ∷ []) (b ∷ []) rest ∙ append_assoc os (a ∷ []) (b ∷ rest)),
    )

    is_before :
        (es : List Ast.Exp) (lexer : Lexer.Lexer)
        → IsBefore es (before (10 ∷ typed_before es text) lexer semicolon)
    is_before es lexer =
        (refl, lexer, semicolon, look-newline (typed_before es text) lexer semicolon)

    -- The loop on the expressions behind one.
    abbrev Follows : ℕ → List Ast.Exp → Type 0
    Follows f es =
        (s : Session)
        → IsBefore es s.parser
        → Writes (all_return evaluate es s.counter)
            (s.output ++ answers_before evaluate last es s.counter) (run evaluate bp f s)

    -- What follows a result of the compiled code, if the rest is written as it should.
    value-Writes :
        (f : ℕ) (es : List Ast.Exp) (s : Session) (m : ℕ) (lexer : Lexer.Lexer) (c : Token)
        (v : Option Str)
        → Follows f es
        → Writes
            (value_returns v (all_return evaluate es m))
            (s.output ++ prompt ∷ answer_value v (answers_before evaluate last es m))
            (after evaluate bp (run evaluate bp (suc f)) (
              after_evaluate
                (record (write prompt s) {
                  parser = (look (before (59 ∷ 10 ∷ typed_before es text) lexer c)).1;
                  counter = m;
                })
                v))
    value-Writes f es s m lexer c none k = (
      crashes (record (write prompt s) {
        parser = (look (before (59 ∷ 10 ∷ typed_before es text) lexer c)).1;
        counter = m;
      }),
      refl,
      refl,
    )
    value-Writes f es s m lexer c (some v) k =
        let o = evaluated_to v in
        let t = all_return evaluate es m in
        let s₁ = record s { counter = m; output = (s.output ++ prompt ∷ []) ++ o ∷ [] } in
        Writes-append t s.output prompt o (answers_before evaluate last es m) (
          after_semicolon-Writes f es t _ s₁ lexer c (
            k (record s₁ { parser = before (10 ∷ typed_before es text) lexer semicolon })
              (is_before es lexer)))

    -- What follows an expression that was parsed, if the rest is written as it should.
    answer-Writes :
        (f : ℕ) (es : List Ast.Exp) (s : Session) (lexer : Lexer.Lexer) (c : Token)
        (r : Option Compiled)
        → IsAnswered r
        → Follows f es
        → Writes
            (returns evaluate r s.counter (all_return evaluate es))
            (s.output ++ prompt ∷ answer evaluate r s.counter (answers_before evaluate last es))
            (after evaluate bp (run evaluate bp (suc f)) (
              after_compile evaluate
                (record (write prompt s) {
                  parser = (look (before (59 ∷ 10 ∷ typed_before es text) lexer c)).1;
                })
                r))
    answer-Writes f es s lexer c none h k = absurd h
    answer-Writes f es s lexer c (some (compiled fns m)) h k =
        value-Writes f es s m lexer c (evaluate fns) k
    answer-Writes f es s lexer c (some (reports x)) h k =
        let o = error_line (not_in_scope_reason x) in
        let t = all_return evaluate es s.counter in
        let s₁ = record s { output = (s.output ++ prompt ∷ []) ++ o ∷ [] } in
        Writes-append t s.output prompt o (answers_before evaluate last es s.counter) (
          after_semicolon-Writes f es t _ s₁ lexer c (
            k (record s₁ { parser = before (10 ∷ typed_before es text) lexer semicolon })
              (is_before es lexer)))
    answer-Writes f es s lexer c (some (uncaught msg)) h k = absurd h
    answer-Writes f es s lexer c (some invalid_pointer) h k = absurd h

    -- The loop does so in front of the text.
    abbrev pub AtText : Type 0
    AtText =
        (f : ℕ) (s : Session)
        → IsBefore [] s.parser
        → Writes true (s.output ++ last) (run evaluate bp (suc f) s)

    module _ (at_text : AtText) where
      -- The loop on the expressions in front of the text.
      pub run-Writes :
          (es : List Ast.Exp) (f : ℕ) (s : Session)
          → HasPowers bp
          → AreTypable es
          → IsBefore es s.parser
          → 2 * length es + 1 ≤ f
          → Writes
              (all_return evaluate es s.counter)
              (s.output ++ answers_before evaluate last es s.counter)
              (run evaluate bp f s)
      unfolding run
      run-Writes [] zero s powers h b le = absurd (omega arith)
      run-Writes [] (suc f) s powers h b le = at_text f s b
      run-Writes (e ∷ es) zero s powers h b le = absurd (omega arith)
      run-Writes (e ∷ es) (suc zero) s powers h b le = absurd (omega arith)
      run-Writes (e ∷ es) (suc (suc f)) s powers (h, ok, hs) (n, lexer, c, q) le =
          let r = look (before (typed_before (e ∷ es) text) lexer c) in
          let (lexer', c', parse) =
            parse_expression-typed bp e (10 ∷ typed_before es text) lexer c powers h in
          let read =
            step-read evaluate bp s r n q (look-dump bp e (10 ∷ typed_before es text) lexer c h)
            ∙ ap (after_parse evaluate (record (write prompt s) { parser = r.1 })) parse in
          let (s', run', o) =
            answer-Writes f es s lexer' c' (compile e s.counter) (compile-IsAnswered e s.counter ok)
              (λ s' b. run-Writes es f s' powers hs b (omega arith)) in
          (s', ap (after evaluate bp (run evaluate bp (suc f))) read ∙ run', o)
