-- ===== src/Repl/Answers.antt =====
-- src/main.cpp: what the loop of `main` writes for expressions that are typed.
use lambcalc_cpp.Base.{
  ℕ, ◌≡◌, inl, inr, Bool, true, false, none, Bool-cases, Option, some, List, [], ◌∷◌, Str,
}
use lambcalc_cpp.Ast
use lambcalc_cpp.Lexer.{eof}
use lambcalc_cpp.Parser.RoundTrip.Need.{IsPrintable}
use lambcalc_cpp.Anf.Success.{calls_no_literal}
use lambcalc_cpp.Rename.Scope.{in_scope}
use lambcalc_cpp.Hoist.{Function}
use lambcalc_cpp.Compile.{Compiled, compiled, reports, compile}
use lambcalc_cpp.Compile.Correct.{compile-AreComplete, compile-reports}
use lambcalc_cpp.Repl.{
  Output, prompt, error_line, evaluated_to, invalid_token_reason, not_in_scope_reason,
}

-- The expression is compiled, or a name is reported.
abbrev pub IsAnswered : Option Compiled → Type 0
IsAnswered (some (compiled fns n)) = Unit
IsAnswered (some (reports x)) = Unit
IsAnswered _ = ⊥

pub compile-IsAnswered :
    (e : Ast.Exp) (n : ℕ) → calls_no_literal e ≡ true → IsAnswered (compile e n)
compile-IsAnswered e n ok = elim (Bool-cases (in_scope [] e)) [
  | inl scoped ↦ let (fs, p, _) = compile-AreComplete e n scoped ok in rw (p) tt
  | inr unscoped ↦ let (x, p) = compile-reports e n unscoped in rw (p) tt
]

-- The expressions can be typed, and call no literal.
abbrev pub AreTypable : List Ast.Exp → Type 0
AreTypable [] = Unit
AreTypable (e ∷ es) = IsPrintable e × (calls_no_literal e ≡ true) × AreTypable es

-- Nothing is written where the compiled code does not return.
abbrev pub answer_value : Option Str → List Output → List Output
answer_value none rest = []
answer_value (some v) rest = evaluated_to v ∷ rest

abbrev pub value_returns : Option Str → Bool → Bool
value_returns none rest = false
value_returns (some v) rest = rest

module _ (evaluate : List Function → Option Str) where
  -- What is compiled of the expressions returns, from the counter `n` on.
  abbrev pub returns : Option Compiled → ℕ → (ℕ → Bool) → Bool
  returns (some (compiled fns m)) n rest = value_returns (evaluate fns) (rest m)
  returns (some (reports x)) n rest = rest n
  returns _ n rest = false

  abbrev pub all_return : List Ast.Exp → ℕ → Bool
  all_return [] n = true
  all_return (e ∷ es) n = returns (compile e n) n (all_return es)

  -- What is written for an expression, and what follows at the counter that it leaves, if the compiled
  -- code returns.
  abbrev pub answer : Option Compiled → ℕ → (ℕ → List Output) → List Output
  answer (some (compiled fns m)) n rest = answer_value (evaluate fns) (rest m)
  answer (some (reports x)) n rest = error_line (not_in_scope_reason x) ∷ rest n
  answer _ n rest = []

  -- What is written for the expressions, from the counter `n` on, and `last` behind it.
  abbrev pub answers_before : List Output → List Ast.Exp → ℕ → List Output
  answers_before last [] n = last
  answers_before last (e ∷ es) n = prompt ∷ answer (compile e n) n (answers_before last es)

  -- Behind the expressions is the end of the stream.
  abbrev pub answers : List Ast.Exp → ℕ → List Output
  answers es n = answers_before (prompt ∷ error_line (invalid_token_reason eof) ∷ []) es n
