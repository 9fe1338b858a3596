-- ===== src/Repl/Sessions.antt =====
-- src/main.cpp: the loop of `main` on expressions that lowering is able to lower.
use lambcalc_cpp.Base.{
  ℕ, ℤ, ◌+◌, ◌*◌, ◌≤◌, ◌≡◌, refl, ◌∙◌, ap, ◌⊎◌, inl, inr, Bool-cases, true, false, Option, none,
  some, List, [], ◌∷◌, Str, length,
}
use lambcalc_cpp.Ast
use lambcalc_cpp.Lexer
use lambcalc_cpp.Parser
use lambcalc_cpp.Parser.{BindingPowers}
use lambcalc_cpp.Parser.RoundTrip.{HasPowers}
use lambcalc_cpp.Anf.Success.{names_drawn}
use lambcalc_cpp.Anf.Shape.{ifs, has_few_ifs}
use lambcalc_cpp.Rename.Scope.{in_scope}
use lambcalc_cpp.Rename.Binding.{has_plain_params}
use lambcalc_cpp.Rename.Named.{has_own_params}
use lambcalc_cpp.Hoist.{Function}
use lambcalc_cpp.Compile.{compile, compiled}
use lambcalc_cpp.Compile.Correct.{compile-reports}
use lambcalc_cpp.Lower.Library.{Llvm}
use lambcalc_cpp.Lower.{lowered}
use lambcalc_cpp.Lower.Module.{lower_module}
use lambcalc_cpp.Lower.Declared.{FindsFunctions}
use lambcalc_cpp.Lower.Compiled.{compile-lower_module}
use lambcalc_cpp.Repl.{Session, leaves, run}
use lambcalc_cpp.Repl.Answers.{AreTypable, all_return, answers}
use lambcalc_cpp.Repl.Evaluate.{evaluate}
use lambcalc_cpp.Repl.Programs.{finish, run-typed}
use lambcalc_cpp.Repl.Typed.{typed}

-- A variable is free, or no parameter ends in a digit or is called `tmp`, and there is at most one
-- conditional outside the functions and at most one in the body of each.
abbrev pub IsLowerable : Ast.Exp → Type 0
IsLowerable e =
    (in_scope [] e ≡ false)
    ⊎ ((has_plain_params e ≡ true)
        × (has_own_params e ≡ true)
        × (has_few_ifs e ≡ true)
        × (ifs e ≤ 1))

abbrev pub AreLowerable : List Ast.Exp → Type 0
AreLowerable [] = Unit
AreLowerable (e ∷ es) = IsLowerable e × AreLowerable es

module _ (L : Llvm) (empty_module : L.Ir) (execute : L.Ir → Option Str) where
  -- The code that is compiled of an expression, at any counter, returns when it is executed.
  abbrev pub IsExecuted : Ast.Exp → Type 0
  IsExecuted e =
      (n m : ℕ) (fs : List Function) (ir : L.Ir)
      → compile e n ≡ some (compiled fs m)
      → lower_module L fs empty_module ≡ lowered ir
      → (value : Str) × (execute ir ≡ some value)

  abbrev pub AreExecuted : List Ast.Exp → Type 0
  AreExecuted [] = Unit
  AreExecuted (e ∷ es) = IsExecuted e × AreExecuted es

  module _ (laws : FindsFunctions L)
      (none_yet : (x : Str) → L.get_function x empty_module ≡ none) where
    lowerable-all_return :
        (es : List Ast.Exp) (n : ℕ)
        → AreTypable es
        → AreLowerable es
        → AreExecuted es
        → all_return (evaluate L empty_module execute) es n ≡ true
    unfolding evaluate
    lowerable-all_return [] n t l x = refl
    lowerable-all_return (e ∷ es) n (_, ok, ts) (l, ls) (x, xs) =
        elim (Bool-cases (in_scope [] e)) [
          | inr unscoped ↦
              let (y, p) = compile-reports e n unscoped in
              rw (p) (lowerable-all_return es n ts ls xs)
          | inl scoped ↦ elim l [
            | inl unscoped ↦ absurd (cc)
            | inr (plain, own, few, one) ↦
                let (fs, ir, p, q) =
                  compile-lower_module L laws empty_module e n none_yet scoped ok plain own few
                    one in
                let (v, r) = x n (n + names_drawn e) fs ir p q in
                rw (p, q, r) (lowerable-all_return es (n + names_drawn e) ts ls xs)
          ]
        ]

    -- Expressions are printed and typed, each with a semicolon and a new line behind it. Their names are
    -- identifiers and no keywords, their integers are not negative and below 2 ^ 31, and they call no
    -- integer literal; each has a free variable, or no parameter that ends in a digit or is called `tmp`, at most one conditional
    -- outside its functions and at most one in the body of each function, and the code that is compiled of
    -- it returns. The operators have binding powers, and LLVM finds the functions that it was given, none
    -- of which the new module has. In twice as many rounds as there are expressions, and one, the loop of
    -- `main` answers them in their order and leaves at the end of the stream, without a crash.
    pub run-typed-leaves :
        (bp : BindingPowers) (beyond_int : ℕ → ℤ) (es : List Ast.Exp) (fuel n : ℕ)
        → HasPowers bp
        → AreTypable es
        → AreLowerable es
        → AreExecuted es
        → 2 * length es + 1 ≤ fuel
        → (s : Session) × (run (evaluate L empty_module execute) bp fuel (record {
          parser = Parser.start (Lexer.start beyond_int (typed es));
          counter = n;
          output = [];
        })
            ≡ some (leaves s))
          × (s.output ≡ answers (evaluate L empty_module execute) es n)
    run-typed-leaves bp beyond_int es fuel n powers t l x le =
        let (s, p, o) =
          run-typed (evaluate L empty_module execute) bp beyond_int es fuel n powers t le in
        let all = lowerable-all_return es n t l x in (s, p ∙ ap (λ b. some (finish b s)) all, o)
