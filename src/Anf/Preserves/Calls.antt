-- ===== src/Anf/Preserves/Calls.antt =====
-- src/anf.cpp: a call and an operator, after what their parts evaluate to.
use lambcalc_cpp.Base.{ℕ, ◌+◌, ◌≤◌, ◌≡◌, refl, ◌∙◌, ap, some, List, [], ◌∷◌, Str, bytes, ℤ, arith}
use lambcalc_cpp.Ast
use lambcalc_cpp.Ast.{Bop}
use lambcalc_cpp.Ast.Semantics as Source
use lambcalc_cpp.Ast.Semantics.{is_zero}
use lambcalc_cpp.Anf
use lambcalc_cpp.Anf.{int_value, var_value, glob_value}
use lambcalc_cpp.Anf.Monad.{◌>>=◌, fresh, pure, fresh_name, bind as then}
use lambcalc_cpp.Anf.Convert.{Cont, convert_cont, string_value}
use lambcalc_cpp.Anf.Names.{IsNamed}
use lambcalc_cpp.Anf.Scoped.{Yields}
use lambcalc_cpp.Anf.Semantics.{
  Value, Env, int, closure, bind, find, value_of, Joins, no_joins, app_exp, bop_exp,
}
use lambcalc_cpp.Anf.Preserves.Values.{
  halt, AreOwn, Related, ints, closures, Agree, IsPastName, IsPast, Extends, Extends-trans,
  Related-int, value_of-Extends, Agree-Extends, Agree-bind, AreOwn-cons,
}
use lambcalc_cpp.Anf.Preserves.Steps.{
  Yields-map, RunsTo, Continues, Simulates, Continues-fresh, Continues-halt,
}

module _ (op : Bop → ℤ → ℤ → ℤ) where
  -- The call of a function, when its argument is known.
  call-RunsTo :
      (ρ' : Source.Env) (x : Str) (body : Ast.Exp) (u v : Source.Value) (wf wa : Value)
      → Simulates op (Source.bind x u ρ') body v
      → Related (Source.closure x body ρ') wf
      → Related u wa
      → (b : Anf.Exp) × (p : Str) × (σ : Env) × (wf ≡ closure (p ∷ []) b σ)
        × RunsTo op no_joins (bind p wa σ) (Related v) b
  call-RunsTo ρ' x body u v _ wa sim
        (closures {body' = b} {σ = σ} xs n m conv named own_x own f found related) ra =
      let a : Agree xs ρ' σ = record { value = f; found = found; related = related } in
      let run =
        sim (x ∷ xs) no_joins (bind x wa σ) halt n (Related v) (AreOwn-cons xs x own_x own) named
          (Agree-bind xs ρ' σ x u wa a ra) (Continues-halt op no_joins (bind x wa σ) n v) in
      (b, x, σ, refl, (rw conv at run))

  -- The argument, after the function, and the call.
  after_fn :
      (ρ ρ' : Source.Env) (x : Str) (arg body : Ast.Exp) (u v : Source.Value) (xs : List Str)
      (js : Joins) (σ σ' : Env) (k : Cont) (n m : ℕ) (R : Value → Type 0) (g : Str) (wf : Value)
      → Simulates op ρ arg u
      → Simulates op (Source.bind x u ρ') body v
      → AreOwn xs
      → IsNamed xs arg
      → Agree xs ρ σ
      → Continues op js σ n v R k
      → n ≤ m
      → Extends n σ σ'
      → IsPastName m g
      → find σ' g ≡ some wf
      → Related (Source.closure x body ρ') wf
      → Yields (RunsTo op js σ' R) (
          convert_cont arg
            (λ a. do
              name ← fresh
              rest ← k (var_value name)
              pure (Anf.app_exp name g (a ∷ []) rest))
            m)
  after_fn ρ ρ' x arg body u v xs js σ σ' k n m R g wf sim_arg sim_body own named a h le ex past
        found rf =
      sim_arg xs js σ' _ m R own named (Agree-Extends xs ρ n σ σ' own ex a)
        λ av m₂ σ'' wa le₂ ex₂ past_a q ra.
          let y = fresh_name m₂ in
          let (b, p, σc, eq, (wb, called, rb)) = call-RunsTo ρ' x body u v wf wa sim_body rf ra in
          let found'' = ex₂ g past ∙ found ∙ ap some eq in
          Yields-map (RunsTo op js (bind y wb σ'') R) (RunsTo op js σ'' R)
            (Anf.app_exp y g (av ∷ [])) (k (var_value y) (m₂ + 1))
            (Continues-fresh op js σ σ'' n m₂ v R k wb h (omega arith)
              (Extends-trans n m σ σ' σ'' le ex ex₂) rb)
            (λ rest (r, runs, ok). (r, app_exp found'' q called runs, ok))

  pub Simulates-app :
      (ρ ρ' : Source.Env) (x : Str) (fn arg body : Ast.Exp) (u v : Source.Value)
      → Simulates op ρ fn (Source.closure x body ρ')
      → Simulates op ρ arg u
      → Simulates op (Source.bind x u ρ') body v
      → Simulates op ρ (Ast.app_exp fn arg) v
  unfolding convert_cont
  Simulates-app ρ ρ' x fn arg body u v sim_fn sim_arg sim_body xs js σ k n R own
        (named_fn, named_arg) a h =
      sim_fn xs js σ _ n R own named_fn a (cases)
    where
      cases :
          (f : Anf.Value) (m : ℕ) (σ' : Env) (wf : Value)
          → n ≤ m
          → Extends n σ σ'
          → IsPast m f
          → value_of σ' f ≡ some wf
          → Related (Source.closure x body ρ') wf
          → Yields (RunsTo op js σ' R) (
              then (string_value (bytes "function") f m) λ g. convert_cont arg (λ a. do
                name ← fresh
                rest ← k (var_value name)
                pure (Anf.app_exp name g (a ∷ []) rest)))
      cases (int_value i) m σ' wf le ex past q rf = tt
      cases (var_value g) m σ' wf le ex past q rf =
          after_fn ρ ρ' x arg body u v xs js σ σ' k n m R g wf sim_arg sim_body own named_arg a h le
            ex past q rf
      cases (glob_value g) m σ' wf le ex past q rf =
          after_fn ρ ρ' x arg body u v xs js σ σ' k n m R g wf sim_arg sim_body own named_arg a h le
            ex past q rf

  pub Simulates-bop :
      (ρ : Source.Env) (bop : Bop) (a b : Ast.Exp) (i j : ℤ)
      → Simulates op ρ a (Source.int i)
      → Simulates op ρ b (Source.int j)
      → Simulates op ρ (Ast.bop_exp bop a b) (Source.int (op bop i j))
  unfolding convert_cont
  Simulates-bop ρ bop a b i j sim_a sim_b xs js σ k n R own (named_a, named_b) agree h =
      sim_a xs js σ _ n R own named_a agree λ u m σ' wu le ex past q r.
        sim_b xs js σ' _ m R own named_b (Agree-Extends xs ρ n σ σ' own ex agree)
          λ u' m₂ σ'' wu' le₂ ex₂ past' q' r'.
            let y = fresh_name m₂ in
            let first = value_of-Extends m σ' σ'' u ex₂ past ∙ Related-int σ' u i wu q r in
            let second = Related-int σ'' u' j wu' q' r' in
            let w = int (op bop i j) in
            Yields-map (RunsTo op js (bind y w σ'') R) (RunsTo op js σ'' R) (Anf.bop_exp y bop u u')
              (k (var_value y) (m₂ + 1))
              (Continues-fresh op js σ σ'' n m₂ (Source.int (op bop i j)) R k w h (omega arith)
                (Extends-trans n m σ σ' σ'' le ex ex₂) (ints (op bop i j)))
              (λ rest (t, runs, ok). (t, bop_exp first second runs, ok))
