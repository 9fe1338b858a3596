-- ===== src/Repl/Rounds.antt =====
-- src/main.cpp: a round of the loop of `main` that reads an expression, and one that passes a semicolon.
use lambcalc_cpp.Base.{ℕ, ◌≡◌, ◌∙◌, ap, false, Option, none, List, ◌∷◌, Str, if◌then◌else◌}
use lambcalc_cpp.Lexer
use lambcalc_cpp.Lexer.{Token, eof, character}
use lambcalc_cpp.Parser
use lambcalc_cpp.Parser.{BindingPowers, Parsed, parsed, invalid_token, next_token, look, token_eq}
use lambcalc_cpp.Parser.Expression.{parse_expression}
use lambcalc_cpp.Parser.Reads.{before}
use lambcalc_cpp.Hoist.{Function}
use lambcalc_cpp.Repl.{
  prompt, Session, next, semicolon, is_semicolon, write, after_parse, read_expression, step,
}
use lambcalc_cpp.Repl.Ends.{look-peek_token}
use lambcalc_cpp.Repl.Typed.{next_token-typed, look-semicolon}

module _ (evaluate : List Function → Option Str) where
  module _ (bp : BindingPowers) where
    -- A round that reads an expression.
    pub step-read :
        (s : Session) (r : Token × Parser.Parser)
        → s.parser.peek_token ≡ none
        → look s.parser ≡ r
        → token_eq r.0 semicolon ≡ false
        → step evaluate bp s
          ≡ after_parse evaluate
              (record (write prompt s) { parser = r.1 })
              (parse_expression bp r.1)
    unfolding step
    step-read s r h e k =
        let skipped = next (record s { parser = next_token s.parser }) in
        let read = λ (r : Token × Parser.Parser). read_expression evaluate bp r (write prompt s) in
        let parse =
          after_parse evaluate (record (write prompt s) { parser = r.1 })
            (parse_expression bp r.1) in
        ap (λ b. if b then skipped else read (look s.parser)) (ap is_semicolon h)
        ∙ ap read e
        ∙ ap (λ b. if b then next (record (write prompt s) { parser = r.1 }) else parse) k

    -- A round that passes a semicolon.
    pub step-semicolon :
        (s : Session) (more : List ℕ) (lexer : Lexer.Lexer) (c : Token)
        → step evaluate bp (record s { parser = (look (before (59 ∷ more) lexer c)).1 })
          ≡ next (record s { parser = before more lexer (character 59) })
    unfolding step
    step-semicolon s more lexer c =
        let b = before (59 ∷ more) lexer c in
        let p = (look b).1 in
        let skipped = next (record s { parser = next_token p }) in
        let otherwise =
          read_expression evaluate bp (look p) (write prompt (record s { parser = p })) in
        ap (λ b. if b then skipped else otherwise)
          (ap is_semicolon (look-peek_token b)
            ∙ ap (λ t. token_eq t semicolon) (look-semicolon more lexer c))
        ∙ ap (λ q. next (record s { parser = q })) (next_token-typed bp more lexer c)
