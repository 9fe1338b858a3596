-- ===== src/Anf/Preserves/Steps.antt =====
-- src/anf.cpp: each case of the conversion, after what its parts evaluate to: the leaves and functions.
use lambcalc_cpp.Base.{
  ℕ, ◌+◌, ◌≤◌, ◌≡◌, refl, ◌∙◌, ap, true, false, Option, none, some, List, [], ◌∷◌, Str, bytes,
  str_eq, ℤ, arith,
}
use lambcalc_cpp.Ast
use lambcalc_cpp.Ast.{Bop}
use lambcalc_cpp.Ast.Semantics as Source
use lambcalc_cpp.Ast.Semantics.{is_zero}
use lambcalc_cpp.Anf
use lambcalc_cpp.Anf.{int_value, var_value, glob_value}
use lambcalc_cpp.Anf.Monad.{pure, fresh_name, Outcome, done, throws, null_pointer, M, bind as then}
use lambcalc_cpp.Anf.Convert.{Cont, convert_cont}
use lambcalc_cpp.Anf.Names.{IsNamed}
use lambcalc_cpp.Anf.Scoped.{Yields, after_body}
use lambcalc_cpp.Anf.Ranged.{convert_cont-le}
use lambcalc_cpp.Anf.Semantics.{
  Value, Env, int, closure, bind, value_of, Joins, Runs, halt_exp, fun_exp,
}
use lambcalc_cpp.Anf.Preserves.Values.{
  halt, AreOwn, Related, ints, closures, Agree, IsPast, Extends, Extends-bind, fresh_name-past,
}

pub Yields-any : (o : Outcome Anf.Exp) → Yields (λ e. Unit) o
Yields-any (done e n) = tt
Yields-any (throws msg n) = tt
Yields-any null_pointer = tt

-- What follows a result.
pub Yields-after :
    {A : Type 0} (R : Anf.Exp → Type 0) (o : Outcome A) (f : A → M Anf.Exp)
    → ((a : A) (n : ℕ) → o ≡ done a n → Yields R (f a n))
    → Yields R (then o f)
Yields-after R (done a n) f h = h a n refl
Yields-after R (throws msg n) f h = tt
Yields-after R null_pointer f h = tt

pub Yields-map :
    (P Q : Anf.Exp → Type 0) (build : Anf.Exp → Anf.Exp) (o : Outcome Anf.Exp)
    → Yields P o
    → ((e : Anf.Exp) → P e → Q (build e))
    → Yields Q (then o (λ e. pure (build e)))
Yields-map P Q build (done e n) h g = g e h
Yields-map P Q build (throws msg n) h g = tt
Yields-map P Q build null_pointer h g = tt

module _ (op : Bop → ℤ → ℤ → ℤ) where
  -- The expression results in a value of which `R` holds.
  abbrev pub RunsTo : Joins → Env → (Value → Type 0) → Anf.Exp → Type 0
  RunsTo js σ R e = (w : Value) × Runs op js σ e w × R w

  -- What the continuation makes of a value does, wherever that is known.
  abbrev pub Continues : Joins → Env → ℕ → Source.Value → (Value → Type 0) → Cont → Type 0
  Continues js σ n v R k =
      (u : Anf.Value) (m : ℕ) (σ' : Env) (w : Value)
      → n ≤ m
      → Extends n σ σ'
      → IsPast m u
      → value_of σ' u ≡ some w
      → Related v w
      → Yields (RunsTo js σ' R) (k u m)

  -- An expression that evaluates to `v` is converted to one that goes on with `v`.
  abbrev pub Simulates : Source.Env → Ast.Exp → Source.Value → Type 1
  Simulates ρ e v =
      (xs : List Str) (js : Joins) (σ : Env) (k : Cont) (n : ℕ) (R : Value → Type 0)
      → AreOwn xs
      → IsNamed xs e
      → Agree xs ρ σ
      → Continues js σ n v R k
      → Yields (RunsTo js σ R) (convert_cont e k n)

  -- The continuation is given a new name for a value.
  pub Continues-fresh :
      (js : Joins) (σ σ' : Env) (n m : ℕ) (v : Source.Value) (R : Value → Type 0) (k : Cont)
      (w : Value)
      → Continues js σ n v R k
      → n ≤ m
      → Extends n σ σ'
      → Related v w
      → Yields (RunsTo js (bind (fresh_name m) w σ') R) (k (var_value (fresh_name m)) (m + 1))
  Continues-fresh js σ σ' n m v R k w h le ex r =
      let y = fresh_name m in
      h (var_value y) (m + 1) (bind y w σ') w (omega arith) (Extends-bind n m σ σ' w le ex)
        (fresh_name-past m (m + 1) (omega arith)) (rw ((lambcalc_cpp.Base.str_eq_iff y y).1 refl)) r

  pub Continues-halt :
      (js : Joins) (σ : Env) (n : ℕ) (v : Source.Value) → Continues js σ n v (Related v) halt
  Continues-halt js σ n v u m σ' w le ex past q r = (w, halt_exp q, r)

  pub Simulates-int : (ρ : Source.Env) (i : ℤ) → Simulates ρ (Ast.int_exp i) (Source.int i)
  unfolding convert_cont
  Simulates-int ρ i xs js σ k n R own named a h =
      h (int_value i) n σ (int i) (omega arith) (λ y p. refl) tt refl (ints i)

  pub Simulates-var :
      (ρ : Source.Env) (x : Str) (v : Source.Value)
      → Source.find ρ x ≡ some v
      → Simulates ρ (Ast.var_exp x) v
  unfolding convert_cont
  Simulates-var ρ x v p xs js σ k n R own named a h =
      h (var_value x) n σ (a.value x) (omega arith) (λ y p. refl) (λ j l. own x named j)
        (a.found x v named p) (a.related x v named p)

  pub Simulates-lam :
      (ρ : Source.Env) (x : Str) (body : Ast.Exp)
      → Simulates ρ (Ast.lam_exp x body) (Source.closure x body ρ)
  unfolding convert_cont
  Simulates-lam ρ x body xs js σ k n R own (new, own_x, named) a h =
      Yields-after (RunsTo js σ R) (convert_cont body halt n) (after_body x k) λ b m conv.
        let y = fresh_name m in
        let w = closure (x ∷ []) b σ in
        let le = convert_cont-le body n m b conv in
        Yields-map (RunsTo js (bind y w σ) R) (RunsTo js σ R) (Anf.fun_exp y (x ∷ []) b)
          (k (var_value y) (m + 1))
          (Continues-fresh js σ σ n m (Source.closure x body ρ) R k w h le (λ y p. refl)
            (closures xs n m conv named own_x own a.value a.found a.related))
          (λ rest (r, runs, ok). (r, fun_exp runs, ok))
