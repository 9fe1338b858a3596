-- ===== src/Repl.antt =====
-- src/main.cpp: the loop of `main` over the lines of the stream. `lower::lower` and the call of the
-- compiled `main` are the argument `evaluate`, which is `none` where one of them does not return; what it
-- is for the model of lowering is in Repl/Evaluate. The buffer of the allocator is taken to be large
-- enough.
pub mod Ends
pub mod Typed
pub mod Answers
pub mod Rounds
pub mod Answering
pub mod Programs
pub mod Evaluate
pub mod Sessions
use lambcalc_cpp.Base.{
  ℕ, zero, suc, Bool, true, false, Option, none, some, List, [], ◌∷◌, ◌++◌, Str, bytes, ℤ, pos,
  negsuc, int_to_string, if◌then◌else◌,
}
use lambcalc_cpp.Ast
use lambcalc_cpp.Lexer.{Token, eof, number, identifier, fn, arrow, if_, then_, else_, character}
use lambcalc_cpp.Parser
use lambcalc_cpp.Parser.{
  BindingPowers, Parsed, parsed, invalid_token, expected, out_of_fuel, next_token, look, token_eq,
}
use lambcalc_cpp.Parser.Expression.{parse_expression}
use lambcalc_cpp.Hoist.{Function}
use lambcalc_cpp.Compile.{Compiled, compiled, reports, uncaught, invalid_pointer, compile}

-- What is written to `std::cout` and `std::cerr`.
pub data Output : Type 0 where
  prompt : Output
  error_line : Str → Output
  evaluated_to : Str → Output

pub record Session : Type 0 where
  pub parser : Parser.Parser
  -- the counter of src/anf.cpp
  pub counter : ℕ
  pub output : List Output

-- A round of the loop goes on, leaves it, or ends the program.
pub data Round : Type 0 where
  next : Session → Round
  leaves : Session → Round
  -- an assertion of the parser failed
  aborts : Token → Session → Round
  -- an exception that nothing catches
  terminates : Str → Session → Round
  -- lowering, or the compiled code, does not return
  crashes : Session → Round
  -- a pointer that leads nowhere, or fuel of the model that did not suffice
  undefined : Round

abbrev pub semicolon : Token
semicolon = character 59

-- `static_cast<int>(token)`.
abbrev pub token_value : Token → ℤ
token_value eof = negsuc 0
token_value number = negsuc 1
token_value identifier = negsuc 2
token_value fn = negsuc 3
token_value arrow = negsuc 4
token_value if_ = negsuc 5
token_value then_ = negsuc 6
token_value else_ = negsuc 7
token_value (character c) = pos c

-- What the exceptions say.
abbrev pub invalid_token_reason : Token → Str
invalid_token_reason t = bytes "Invalid token: " ++ int_to_string (token_value t)

abbrev pub not_in_scope_reason : Str → Str
not_in_scope_reason x = x ++ bytes " is not in scope"

abbrev pub write : Output → Session → Session
write o s = record s { output = s.output ++ o ∷ [] }

abbrev pub is_semicolon : Option Token → Bool
is_semicolon none = false
is_semicolon (some t) = token_eq t semicolon

-- What is done with the result of the compiled code.
abbrev pub after_evaluate : Session → Option Str → Round
after_evaluate s none = crashes s
after_evaluate s (some value) = next (write (evaluated_to value) s)

module _ (evaluate : List Function → Option Str) where
  -- What is done with an expression.
  abbrev pub after_compile : Session → Option Compiled → Round
  after_compile s none = undefined
  after_compile s (some (compiled fns n)) = after_evaluate (record s { counter = n }) (evaluate fns)
  after_compile s (some (reports x)) = next (write (error_line (not_in_scope_reason x)) s)
  after_compile s (some (uncaught msg)) = terminates msg s
  after_compile s (some invalid_pointer) = undefined

  -- What is done with what `parseExpression` returns or throws.
  abbrev pub after_parse : Session → Parsed Ast.Exp → Round
  after_parse s (parsed e p) = after_compile (record s { parser = p }) (compile e s.counter)
  after_parse s (invalid_token t p) =
      let s' = write (error_line (invalid_token_reason t)) (record s { parser = p }) in
      if token_eq t eof then leaves s' else next s'
  after_parse s (expected t) = aborts t s
  after_parse s out_of_fuel = undefined

  module _ (bp : BindingPowers) where
    -- The part of a round after the prompt.
    abbrev pub read_expression : Token × Parser.Parser → Session → Round
    read_expression (t, p) s =
        if token_eq t semicolon
        then next (record s { parser = p })
        else after_parse (record s { parser = p }) (parse_expression bp p)

    -- A round of the loop.
    unfoldable pub step : Session → Round
    step s =
        if is_semicolon s.parser.peek_token
        then next (record s { parser = next_token s.parser })
        else read_expression (look s.parser) (write prompt s)

    abbrev pub after : (Session → Option Round) → Round → Option Round
    after rounds (next s) = rounds s
    after rounds r = some r

    -- `while (true)`, for at most `fuel` rounds: how it ends. `none` means that they did not suffice.
    unfoldable pub run : ℕ → Session → Option Round
    unfolding step
    run zero s = none
    run (suc fuel) s = after (run fuel) (step s)
