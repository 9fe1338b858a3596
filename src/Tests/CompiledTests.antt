-- ===== src/Tests/CompiledTests.antt =====
-- The theorems on what is compiled, and on the lowering of it, at an expression with a conditional.
use lambcalc_cpp.Base.{
  ℕ, ◌+◌, ◌≡◌, refl, ◌∙◌, ap, sym, inl, inr, Bool-cases, true, false, Option, none, some, List, [],
  ◌∷◌, ◌++◌, Str, bytes, pos, str_eq, str_eq_iff, if◌then◌else◌, length, arith,
}
use lambcalc_cpp.Ast
use lambcalc_cpp.VarSet.{contains}
use lambcalc_cpp.Anf.Success.{calls_no_literal, names_drawn}
use lambcalc_cpp.Hoist.{Function}
use lambcalc_cpp.Hoist.Closed.{AreSelfContained}
use lambcalc_cpp.Hoist.Names.{HaveDistinctNames}
use lambcalc_cpp.Compile.{compile, compiled}
use lambcalc_cpp.Compile.Closed.{compile-AreSelfContained}
use lambcalc_cpp.Compile.Names.{compile-HaveDistinctNames}
use lambcalc_cpp.Lower.{lowered}
use lambcalc_cpp.Lower.Module.{lower_module}
use lambcalc_cpp.Lower.Declared.{FindsFunctions}
use lambcalc_cpp.Lower.Compiled.{compile-lower_module}
use lambcalc_cpp.Tests.Recorder.{Recorded, find, repeated, recorder, start}

-- (fn x => fn y => if y then x + 1 else 2) 3
abbrev pub choosing : Ast.Exp
choosing =
    Ast.app_exp
      (Ast.lam_exp (bytes "x") (
        Ast.lam_exp (bytes "y") (
          Ast.if_exp (Ast.var_exp (bytes "y"))
            (Ast.bop_exp Ast.plus (Ast.var_exp (bytes "x")) (Ast.int_exp (pos 1)))
            (Ast.int_exp (pos 2)))))
      (Ast.int_exp (pos 3))

compile-AreSelfContained_example :
    (fs : List Function) × (compile choosing 7 ≡ some (compiled fs (7 + names_drawn choosing)))
    × AreSelfContained fs
unfolding contains str_eq calls_no_literal lambcalc_cpp.Lexer.is_digit
compile-AreSelfContained_example = compile-AreSelfContained choosing 7 refl refl refl refl

compile-HaveDistinctNames_example :
    (fs : List Function) × (compile choosing 7 ≡ some (compiled fs (7 + names_drawn choosing)))
    × HaveDistinctNames fs
unfolding contains str_eq calls_no_literal
compile-HaveDistinctNames_example = compile-HaveDistinctNames choosing 7 refl refl

length-repeated : (n : ℕ) → length (repeated n) ≡ n
length-repeated lambcalc_cpp.Base.zero = refl
length-repeated (lambcalc_cpp.Base.suc n) = ap lambcalc_cpp.Base.suc (length-repeated n)

-- The first function of the name, with its parameters.
find-append :
    (x y : Str) (n : ℕ) (fs : List (Str × ℕ)) (v : Str × ℕ)
    → find x fs ≡ some v
    → find x (fs ++ (y, n) ∷ []) ≡ some v
find-append x y n [] v h = absurd (cc)
find-append x y n ((z, m) ∷ fs) v h = elim (Bool-cases (str_eq x z)) [
  | inl e ↦ let h' = rw e at h in rw (e) h'
  | inr e ↦ let h' = rw e at h in rw (e) (find-append x y n fs v h')
]

find-last :
    (x : Str) (n : ℕ) (fs : List (Str × ℕ))
    → find x fs ≡ none
    → find x (fs ++ (x, n) ∷ []) ≡ some (x, n)
find-last x n [] h = rw ((str_eq_iff x x).1 refl)
find-last x n ((z, m) ∷ fs) h = elim (Bool-cases (str_eq x z)) [
  | inl e ↦ let h' = rw e at h in absurd (cc)
  | inr e ↦ let h' = rw e at h in rw (e) (find-last x n fs h')
]

find-other :
    (x y : Str) (n : ℕ) (fs : List (Str × ℕ))
    → str_eq y x ≡ false
    → find x fs ≡ none
    → find x (fs ++ (y, n) ∷ []) ≡ none
find-other x y n [] ne h = elim (Bool-cases (str_eq x y)) [
  | inl e ↦ let q = (str_eq_iff x y).0 e in let p = (str_eq_iff y x).1 (sym q) in absurd (cc)
  | inr e ↦ rw (e)
]
find-other x y n ((z, m) ∷ fs) ne h = elim (Bool-cases (str_eq x z)) [
  | inl e ↦ let h' = rw e at h in absurd (cc)
  | inr e ↦ let h' = rw e at h in rw (e) (find-other x y n fs ne h')
]

pub recorder-FindsFunctions : FindsFunctions recorder
recorder-FindsFunctions = record {
  finds = λ result params x r h.
      ((x, length params), find-last x (length params) r.functions h, λ ir. length-repeated _);
  adds_no_other = λ ty x y r h ne k. find-other y x ty r.functions ne k;
  keeps_declared = λ ty x y c r (fn, q, args). (fn, find-append y x ty r.functions fn q, args);
  keeps = λ x c. record {
    insert_global = λ y ty r h. h;
    insert_function = λ y ty r h. h;
    set_name = λ v y r h. h;
    create_block = λ y fn r h. h;
    set_insert_point = λ b r h. h;
    create_alloca = λ ty r h. h;
    create_load = λ ty v y r h. h;
    create_store = λ v p r h. h;
    create_ptr_to_int = λ v ty r h. h;
    create_int_to_ptr = λ v ty r h. h;
    create_gep = λ ty p i r h. h;
    create_call_at = λ ty fn ps y r h. h;
    create_call = λ fn ps y r h. h;
    create_bin_op = λ op a b y r h. h;
    create_icmp_ne = λ a b r h. h;
    create_br = λ b r h. h;
    create_cond_br = λ v t e r h. h;
    create_ret = λ v r h. h;
  };
}

compile-lower_module_example :
    (fs : List Function) × (r : Recorded) × (compile choosing 7
      ≡ some (compiled fs (7 + names_drawn choosing)))
    × (lower_module recorder fs start ≡ lowered r)
unfolding contains str_eq calls_no_literal lambcalc_cpp.Lexer.is_digit
compile-lower_module_example =
    compile-lower_module recorder recorder-FindsFunctions start choosing 7 (λ x. refl) refl refl
      refl refl refl (omega arith)
