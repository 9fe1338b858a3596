-- ===== src/Repl/Ends.antt =====
-- src/main.cpp: the loop of `main` ends with the stream.
use lambcalc_cpp.Base.{
  ℕ, zero, suc, ◌+◌, ◌*◌, ◌≤◌, ◌<◌, ◌≡◌, refl, ap, inl, inr, Bool, true, false, Bool-cases, Option,
  none, some, List, [], ◌∷◌, ◌++◌, Str, arith,
}
use lambcalc_cpp.Ast
use lambcalc_cpp.Lexer.{Token, eof, number, identifier, fn, arrow, if_, then_, else_, character}
use lambcalc_cpp.Parser
use lambcalc_cpp.Parser.{
  BindingPowers, Parsed, parsed, invalid_token, expected, out_of_fuel, next_token, look, token_eq,
}
use lambcalc_cpp.Parser.Left.{left, Ends, look-left}
use lambcalc_cpp.Parser.Expression.{parse_expression-Ends}
use lambcalc_cpp.Anf.Success.{calls_no_literal}
use lambcalc_cpp.Rename.Scope.{in_scope}
use lambcalc_cpp.Hoist.{Function}
use lambcalc_cpp.Compile.{Compiled, compiled, reports, uncaught, invalid_pointer, compile}
use lambcalc_cpp.Compile.Correct.{compile-AreComplete, compile-uncaught, compile-reports}
use lambcalc_cpp.Repl.{
  Output, error_line, Session, Round, next, leaves, aborts, terminates, crashes, undefined,
  semicolon, after_evaluate, invalid_token_reason, is_semicolon, after_compile, after_parse, step,
  after, run,
}

token_eq-eof : (t : Token) → token_eq t eof ≡ true → t ≡ eof
token_eq-eof eof h = refl
token_eq-eof number h = cc
token_eq-eof identifier h = cc
token_eq-eof fn h = cc
token_eq-eof arrow h = cc
token_eq-eof if_ h = cc
token_eq-eof then_ h = cc
token_eq-eof else_ h = cc
token_eq-eof (character c) h = cc

-- Compiling an expression comes to an end.
abbrev IsSettled : Option Compiled → Type 0
IsSettled none = ⊥
IsSettled (some invalid_pointer) = ⊥
IsSettled (some c) = Unit

compile-IsSettled : (e : Ast.Exp) (n : ℕ) → IsSettled (compile e n)
compile-IsSettled e n = elim (Bool-cases (in_scope [] e)) [
  | inl scoped ↦ elim (Bool-cases (calls_no_literal e)) [
    | inl ok ↦ let (fs, p, _) = compile-AreComplete e n scoped ok in rw (p) tt
    | inr bad ↦ let (msg, p) = compile-uncaught e n scoped bad in rw (p) tt
  ]
  | inr unscoped ↦ let (x, p) = compile-reports e n unscoped in rw (p) tt
]

abbrev weight : Bool → ℕ
weight true = 0
weight false = 1

-- What bounds the rounds: what is left to read, twice, and a round for the prompt.
abbrev pub measure : Session → ℕ
measure s = 2 * left s.parser + weight (is_semicolon s.parser.peek_token)

weight-le : (b : Bool) → weight b ≤ 1
weight-le true = omega arith
weight-le false = omega arith

-- The last that was written is the exception for the end of the stream.
abbrev pub SaysEof : Session → Type 0
SaysEof s = (o : List Output) × (s.output ≡ o ++ error_line (invalid_token_reason eof) ∷ [])

-- A round that goes on has less than `m` before it, and one that leaves has reported the end.
abbrev pub Falls : ℕ → Round → Type 0
Falls m (next s) = measure s < m
Falls m (leaves s) = SaysEof s
Falls m (aborts t s) = Unit
Falls m (terminates msg s) = Unit
Falls m (crashes s) = Unit
Falls m undefined = ⊥

module _ (evaluate : List Function → Option Str) where
  after_evaluate-Falls :
      (m : ℕ) (s : Session) (v : Option Str) → measure s < m → Falls m (after_evaluate s v)
  after_evaluate-Falls m s none k = tt
  after_evaluate-Falls m s (some v) k = k

  after_compile-Falls :
      (m : ℕ) (s : Session) (c : Option Compiled)
      → IsSettled c
      → measure s < m
      → Falls m (after_compile evaluate s c)
  after_compile-Falls m s none h k = h
  after_compile-Falls m s (some (compiled fns n)) h k =
      after_evaluate-Falls m (record s { counter = n }) (evaluate fns) k
  after_compile-Falls m s (some (reports x)) h k = k
  after_compile-Falls m s (some (uncaught msg)) h k = tt
  after_compile-Falls m s (some invalid_pointer) h k = h

  after_parse-Falls :
      (m : ℕ) (s : Session) (r : Parsed Ast.Exp)
      → Ends m r
      → Falls (2 * m + 1) (after_parse evaluate s r)
  after_parse-Falls m s (parsed e p) h =
      let w = weight-le (is_semicolon p.peek_token) in
      after_compile-Falls (2 * m + 1) (record s { parser = p }) (compile e s.counter)
        (compile-IsSettled e s.counter) (omega arith)
  after_parse-Falls m s (invalid_token t p) h = elim (Bool-cases (token_eq t eof)) [
    | inl e ↦ rw (e) (
      s.output,
      ap (λ u. s.output ++ error_line (invalid_token_reason u) ∷ []) (token_eq-eof t e),
    )
    | inr e ↦
        let w = weight-le (is_semicolon p.peek_token) in
        rw (e) (elim h [ inl q ↦ absurd (not_eof t e q) | inr l ↦ omega arith ])
  ]
    where
      not_eof : (t : Token) → token_eq t eof ≡ false → t ≡ eof → ⊥
      not_eof t e q = let e' : token_eq eof eof ≡ false = rw q at e in cc
  after_parse-Falls m s (expected t) h = tt
  after_parse-Falls m s out_of_fuel h = h

Falls-weaken : (m m' : ℕ) (r : Round) → m ≤ m' → Falls m r → Falls m' r
Falls-weaken m m' (next s) le h = omega arith
Falls-weaken m m' (leaves s) le h = h
Falls-weaken m m' (aborts t s) le h = h
Falls-weaken m m' (terminates msg s) le h = h
Falls-weaken m m' (crashes s) le h = h
Falls-weaken m m' undefined le h = h

-- The token that is looked at is buffered.
pub look-peek_token : (s : Parser.Parser) → (look s).1.peek_token ≡ some (look s).0
look-peek_token s = go s.peek_token
  where
    go :
        (t : Option Token)
        → (look (record s { peek_token = t })).1.peek_token
          ≡ some (look (record s { peek_token = t })).0
    go none = refl
    go (some t) = refl

-- A semicolon that is buffered is consumed.
next_token-semicolon :
    (s : Parser.Parser) → is_semicolon s.peek_token ≡ true → left (next_token s) < left s
next_token-semicolon s h = go s.peek_token refl h
  where
    go :
        (t : Option Token) → s.peek_token ≡ t → is_semicolon t ≡ true → left (next_token s) < left s
    go none e k = cc
    go (some eof) e k = cc
    go (some number) e k = rw (e) (omega arith)
    go (some identifier) e k = rw (e) (omega arith)
    go (some fn) e k = rw (e) (omega arith)
    go (some arrow) e k = rw (e) (omega arith)
    go (some if_) e k = rw (e) (omega arith)
    go (some then_) e k = rw (e) (omega arith)
    go (some else_) e k = rw (e) (omega arith)
    go (some (character c)) e k = rw (e) (omega arith)

-- How the loop ends.
abbrev pub IsEnd : Round → Type 0
IsEnd (next s) = ⊥
IsEnd (leaves s) = SaysEof s
IsEnd (aborts t s) = Unit
IsEnd (terminates msg s) = Unit
IsEnd (crashes s) = Unit
IsEnd undefined = ⊥

module _ (evaluate : List Function → Option Str) (bp : BindingPowers) where
  pub step-Falls : (s : Session) → Falls (measure s) (step evaluate bp s)
  unfolding step
  step-Falls s = elim (Bool-cases (is_semicolon s.parser.peek_token)) [
    | inl e ↦
        let h = next_token-semicolon s.parser e in
        let w = weight-le (is_semicolon (next_token s.parser).peek_token) in rw (e) (omega arith)
    | inr e ↦
        let h = look-left s.parser in
        elim (Bool-cases (token_eq (look s.parser).0 semicolon)) [
          | inl q ↦
              let b : is_semicolon (look s.parser).1.peek_token ≡ true =
                rw (look-peek_token s.parser) q in
              rw (e, q, b) (omega arith)
          | inr q ↦
              rw (e, q)
                (Falls-weaken (2 * left (look s.parser).1 + 1) (2 * left s.parser + 1) _
                  (omega arith)
                  (after_parse-Falls evaluate (left (look s.parser).1) _ _
                    (parse_expression-Ends bp (look s.parser).1)))
        ]
  ]

  after-IsEnd :
      (m : ℕ) (rounds : Session → Option Round) (r : Round)
      → Falls m r
      → ((s : Session) → measure s < m → (r' : Round) × (rounds s ≡ some r') × IsEnd r')
      → (r' : Round) × (after evaluate bp rounds r ≡ some r') × IsEnd r'
  after-IsEnd m rounds (next s) h k = k s h
  after-IsEnd m rounds (leaves s) h k = (leaves s, refl, h)
  after-IsEnd m rounds (aborts t s) h k = (aborts t s, refl, tt)
  after-IsEnd m rounds (terminates msg s) h k = (terminates msg s, refl, tt)
  after-IsEnd m rounds (crashes s) h k = (crashes s, refl, tt)
  after-IsEnd m rounds undefined h k = absurd h

  -- With more rounds than twice what is left to read, and one if no semicolon is buffered, the loop of `main`
  -- ends: after the exception for the end of the stream has been printed, by a failed assertion, by an
  -- exception that nothing catches, or where lowering or the compiled code does not return.
  pub run-IsEnd :
      (fuel : ℕ) (s : Session)
      → measure s < fuel
      → (r : Round) × (run evaluate bp fuel s ≡ some r) × IsEnd r
  unfolding run
  run-IsEnd zero s h = absurd (omega arith)
  run-IsEnd (suc fuel) s h =
      after-IsEnd (measure s) (run evaluate bp fuel) (step evaluate bp s) (step-Falls s)
        (λ s' k. run-IsEnd fuel s' (omega arith))
