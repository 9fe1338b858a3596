-- ===== src/Parser.antt =====
-- include/parser.h and src/parser.cpp: the operator-precedence parser over the lexer, with the
-- binding powers of src/main.cpp as an argument. An `assert` that fails ends the parse.
pub mod Left
pub mod Rounds
pub mod Ends
pub mod Reads
pub mod Expression
pub mod RoundTrip
use lambcalc_cpp.Base.{
  Bool, true, false, ℕ, zero, suc, Option, none, some, ltb, pos, ◌==◌, if◌then◌else◌,
}
use lambcalc_cpp.Ast
use lambcalc_cpp.Ast.{Bop, plus, minus, times}
use lambcalc_cpp.Lexer
use lambcalc_cpp.Lexer.{
  Token, eof, number, identifier, fn, arrow, if_, then_, else_, character, get_token,
}

-- `infixBp_`: the left and right binding power of an operator.
abbrev pub BindingPowers : Type 0
BindingPowers = Bop → Option (ℕ × ℕ)

-- `defaultInfixBp` of src/main.cpp.
abbrev pub default_infix_bp : BindingPowers
default_infix_bp plus = some (1, 2)
default_infix_bp minus = some (1, 2)
default_infix_bp times = some (3, 4)

pub record Parser : Type 0 where
  pub lexer : Lexer.Lexer
  pub current_token : Token
  pub peek_token : Option Token

pub data Parsed (A : Type 0) : Type 0 where
  parsed : A → Parser → Parsed A
  -- `ParserException`, at this token
  invalid_token : Token → Parser → Parsed A
  -- an `assert` that fails, which expected this token
  expected : Token → Parsed A
  -- the fuel of the model did not suffice
  out_of_fuel : Parsed A

module _ {A B : Type 0} where
  abbrev pub bind : Parsed A → (A → Parser → Parsed B) → Parsed B
  bind (parsed a s) f = f a s
  bind (invalid_token t s) f = invalid_token t s
  bind (expected t) f = expected t
  bind out_of_fuel f = out_of_fuel

  infixl 1 ◌>>=◌
  abbrev ◌>>=◌ : (Parser → Parsed A) → (A → Parser → Parsed B) → Parser → Parsed B
  ◌>>=◌ m f s = bind (m s) f

abbrev pure : {A : Type 0} → A → Parser → Parsed A
pure a s = parsed a s

-- `nextToken`.
abbrev pub next_token : Parser → Parser
next_token s = elim s.peek_token [
  | some t ↦ record s { current_token = t; peek_token = none }
  | none ↦ let (t, lexer) = get_token s.lexer in record s { current_token = t; lexer = lexer }
]

-- `peekToken`.
abbrev pub look : Parser → Token × Parser
look s = elim s.peek_token [
  | some t ↦ (t, s)
  | none ↦
      let (t, lexer) = get_token s.lexer in (t, record s { peek_token = some t; lexer = lexer })
]

abbrev pub token_eq : Token → Token → Bool
token_eq eof eof = true
token_eq number number = true
token_eq identifier identifier = true
token_eq fn fn = true
token_eq arrow arrow = true
token_eq if_ if_ = true
token_eq then_ then_ = true
token_eq else_ else_ = true
token_eq (character c) (character d) = c == d
token_eq _ _ = false

-- `nextToken()` and the assertion that the token is this one.
abbrev pub expect : Token → Parser → Parsed Unit
expect t s =
    let s' = next_token s in if token_eq s'.current_token t then parsed tt s' else expected t

-- `parseOp`.
abbrev pub parse_op : Token → Option Bop
parse_op (character c) =
    if c == 43
    then some plus
    else if c == 45
    then some minus
    else if c == 42
    then some times
    else none
parse_op _ = none

-- What the loop of `parseBinOp` does at a token.
pub data Step : Type 0 where
  operator : Bop → ℕ → Step
  application : Step
  stop : Step

abbrev pub app_lbp : ℕ
app_lbp = 100

abbrev pub app_rbp : ℕ
app_rbp = 101

abbrev pub operator_step : ℕ → Bop → Option (ℕ × ℕ) → Step
operator_step min_bp bop none = stop
operator_step min_bp bop (some (lbp, rbp)) = if ltb lbp min_bp then stop else operator bop rbp

abbrev is_argument : Token → Bool
is_argument number = true
is_argument identifier = true
is_argument (character c) = c == 40
is_argument _ = false

abbrev pub decide : BindingPowers → ℕ → Token → Step
decide bp min_bp t = elim (parse_op t) [
  | some bop ↦ operator_step min_bp bop (bp bop)
  | none ↦ if is_argument t then (if ltb app_lbp min_bp then stop else application) else stop
]

module _ (bp : BindingPowers) where
  unfoldable mutual
    -- `parseBinOp(minBP)`, which `parseExpression` calls with the base 0.
    pub parse_bin_op : ℕ → ℕ → Parser → Parsed Ast.Exp
    parse_bin_op zero min_bp s = out_of_fuel
    parse_bin_op (suc f) min_bp s =
        (parse_primary f >>= λ lhs. parse_rest f min_bp lhs) (next_token s)

    -- The loop of `parseBinOp`.
    pub parse_rest : ℕ → ℕ → Ast.Exp → Parser → Parsed Ast.Exp
    parse_rest zero min_bp lhs s = out_of_fuel
    parse_rest (suc f) min_bp lhs s = elim (decide bp min_bp (look s).0) [
      | operator bop rbp ↦
          (parse_bin_op f rbp >>= λ rhs. parse_rest f min_bp (Ast.bop_exp bop lhs rhs))
            (next_token (look s).1)
      | application ↦
          (parse_bin_op f app_rbp >>= λ rhs. parse_rest f min_bp (Ast.app_exp lhs rhs)) (look s).1
      | stop ↦ parsed lhs (look s).1
    ]

    -- `parsePrimary`, with `parseParens`, `parseFn` and `parseIf`.
    pub parse_primary : ℕ → Parser → Parsed Ast.Exp
    parse_primary zero s = out_of_fuel
    parse_primary (suc f) s = elim s.current_token [
      | number ↦ parsed (Ast.int_exp s.lexer.number_value) s
      | identifier ↦ parsed (Ast.var_exp s.lexer.identifier) s
      | fn ↦ (expect identifier >>= λ _. parse_fn f) s
      | if_ ↦ parse_if f s
      | character c ↦ if c == 40 then parse_parens f s else invalid_token (character c) s
      | t ↦ invalid_token t s
    ]

    -- `parseFn` after its parameter.
    pub parse_fn : ℕ → Parser → Parsed Ast.Exp
    parse_fn zero s = out_of_fuel
    parse_fn (suc f) s =
        (expect arrow >>= λ _.
        parse_bin_op f 0 >>= λ body. pure (Ast.lam_exp s.lexer.identifier body))
          s

    pub parse_if : ℕ → Parser → Parsed Ast.Exp
    parse_if zero s = out_of_fuel
    parse_if (suc f) s =
        (parse_bin_op f 0 >>= λ c. expect then_ >>= λ _. parse_bin_op f 0 >>= λ t.
        expect else_ >>= λ _. parse_bin_op f 0 >>= λ e. pure (Ast.if_exp c t e))
          s

    pub parse_parens : ℕ → Parser → Parsed Ast.Exp
    parse_parens zero s = out_of_fuel
    parse_parens (suc f) s = (parse_bin_op f 0 >>= λ e. expect (character 41) >>= λ _. pure e) s

unfoldable pub start : Lexer.Lexer → Parser
start lexer = record { lexer = lexer; current_token = eof; peek_token = none }
