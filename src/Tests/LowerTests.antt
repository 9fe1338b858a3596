-- ===== src/Tests/LowerTests.antt =====
-- What is lowered with a library that records its instructions, and the theorems on lowering. The first
-- functions are those of test/lower.cpp.
use lambcalc_cpp.Base.{
  ℕ, zero, suc, ◌+◌, ◌≡◌, ◌≢◌, refl, inl, inr, Bool, true, false, Option, none, some, List, [], ◌∷◌,
  ◌++◌, Str, bytes, pos, ℤ, str_eq, int_to_string, to_string, if◌then◌else◌, length,
}
use lambcalc_cpp.Ast
use lambcalc_cpp.Ast.{plus}
use lambcalc_cpp.Anf
use lambcalc_cpp.Anf.{int_value, var_value}
use lambcalc_cpp.Hoist.{Function, hoist}
use lambcalc_cpp.Compile.{Compiled, compile, compiled}
use lambcalc_cpp.VarSet.{contains}
use lambcalc_cpp.Anf.Success.{calls_no_literal, names_drawn}
use lambcalc_cpp.Compile.Correct.{compile-AreComplete}
use lambcalc_cpp.Tests.Recorder.{Recorded, recorder, start}
use lambcalc_cpp.Lower.{Lowering, lowered, null_pointer, State, assertion_failed, out_of_fuel}
use lambcalc_cpp.Lower.Module.{lower_module, lower_body}
use lambcalc_cpp.Lower.Correct.{lower_module-terminates, lower_module-compile, lower_body-lowered}

abbrev code_of : Lowering Recorded → List Str
code_of (lowered r) = r.code
code_of _ = []

abbrev lower_hoisted : Option (List Function) → Lowering Recorded
lower_hoisted (some fns) = lower_module recorder fns start
lower_hoisted none = null_pointer

-- `Lower.Simple`.
lower-simple :
    code_of (
      lower_hoisted (
        hoist (
          Anf.bop_exp
            (bytes "c")
            plus
            (int_value (pos 1))
            (int_value (pos 2))
            (Anf.halt_exp (var_value (bytes "c"))))))
    ≡ bytes "entry0:" ∷ bytes "c = op 1 2" ∷ bytes "ret c" ∷ []
unfolding lower_module hoist lambcalc_cpp.Anf.Links.get str_eq lambcalc_cpp.Base.numbered
    int_to_string
lower-simple = refl

abbrev lower_compiled : Option Compiled → Lowering Recorded
lower_compiled (some (compiled fns n)) = lower_module recorder fns start
lower_compiled _ = out_of_fuel

-- (if 1 then 1 else 2) + (if 1 then 3 else 4): the join point of the second conditional is hoisted before
-- the one of the first, around it, and is lowered before it.
abbrev conditional : ℕ → ℕ → Ast.Exp
conditional t e = Ast.if_exp (Ast.int_exp (pos 1)) (Ast.int_exp (pos t)) (Ast.int_exp (pos e))

lower-conditionals :
    lower_compiled (compile (Ast.bop_exp plus (conditional 1 2) (conditional 3 4)) 0) ≡ null_pointer
unfolding lower_module compile lambcalc_cpp.Rename.rename lambcalc_cpp.Ast.Links.get
    lambcalc_cpp.Anf.Defunc.convert_defunc lambcalc_cpp.Anf.Defunc.step
    lambcalc_cpp.Closure.Conversion.closure_convert lambcalc_cpp.Closure.Conversion.perform
    lambcalc_cpp.Anf.Links.get hoist lambcalc_cpp.Anf.Links.set str_eq lambcalc_cpp.Base.numbered
    lambcalc_cpp.Anf.Monad.fresh_name
lower-conditionals = refl

-- One conditional is lowered.
abbrev is_lowered : Lowering Recorded → Bool
is_lowered (lowered r) = true
is_lowered _ = false

lower-conditional : is_lowered (lower_compiled (compile (conditional 1 2) 0)) ≡ true
unfolding lower_module compile lambcalc_cpp.Rename.rename lambcalc_cpp.Ast.Links.get
    lambcalc_cpp.Anf.Defunc.convert_defunc lambcalc_cpp.Anf.Defunc.step
    lambcalc_cpp.Closure.Conversion.closure_convert lambcalc_cpp.Closure.Conversion.perform
    lambcalc_cpp.Anf.Links.get hoist lambcalc_cpp.Anf.Links.set str_eq lambcalc_cpp.Base.numbered
    lambcalc_cpp.Anf.Monad.fresh_name
lower-conditional = refl

-- Adds a parameter to itself across a jump.
abbrev doubling : Function
doubling = record {
  name = bytes "f";
  params = bytes "x" ∷ [];
  entry_block = record {
    name = bytes "entry0";
    slot = none;
    body = Anf.jump_exp (bytes "j") (some (var_value (bytes "x")));
  };
  blocks =
      record {
        name = bytes "j";
        slot = some (bytes "p");
        body =
            Anf.bop_exp (bytes "c") plus (var_value (bytes "p")) (var_value (bytes "x"))
              (Anf.halt_exp (var_value (bytes "c")));
      }
      ∷ [];
}

lower-doubling :
    code_of (lower_module recorder (doubling ∷ []) start)
    ≡ bytes "entry0:"
      ∷ bytes "slot = alloca"
      ∷ bytes "store arg slot"
      ∷ bytes "br j"
      ∷ bytes "j:"
      ∷ bytes "p = load slot"
      ∷ bytes "c = op p arg"
      ∷ bytes "ret c"
      ∷ []
unfolding lower_module str_eq
lower-doubling = refl

lower_body-lowered_example :
    (s : State recorder) × (lower_body recorder doubling (bytes "f", 1) start ≡ lowered s)
lower_body-lowered_example =
    lower_body-lowered recorder doubling (bytes "f", 1) start (λ ir. refl)
      ((inl refl, inl refl, inl refl), ((inl refl, inr (inl refl), inl refl), tt))

lower_module-terminates_example :
    lower_module recorder (doubling ∷ doubling ∷ []) start ≢ out_of_fuel
lower_module-terminates_example = lower_module-terminates recorder (doubling ∷ doubling ∷ []) start

-- if 1 then 1 else 2
lower_module-compile_example :
    (fs : List Function) × (compile (conditional 1 2) 0
      ≡ some (compiled fs (0 + names_drawn (conditional 1 2))))
    × (lower_module recorder fs start ≢ assertion_failed)
unfolding contains str_eq calls_no_literal
lower_module-compile_example =
    let (fs, p, _) = compile-AreComplete (conditional 1 2) 0 refl refl in
    (fs, p, lower_module-compile recorder (conditional 1 2) 0 _ fs start p)
