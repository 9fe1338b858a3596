-- ===== src/Anf/Preserves/Branches.antt =====
-- src/anf.cpp: a conditional, after what the condition and the branch taken evaluate to.
use lambcalc_cpp.Base.{
  ℕ, ◌+◌, ◌≤◌, ◌≡◌, refl, ◌∙◌, ap, true, false, Option, none, some, List, [], ◌∷◌, Str, bytes,
  str_eq, ℤ, arith,
}
use lambcalc_cpp.Ast
use lambcalc_cpp.Ast.{Bop}
use lambcalc_cpp.Ast.Semantics as Source
use lambcalc_cpp.Ast.Semantics.{is_zero}
use lambcalc_cpp.Anf
use lambcalc_cpp.Anf.{int_value, var_value, glob_value}
use lambcalc_cpp.Anf.Monad.{◌>>=◌, pure, fresh_name, done}
use lambcalc_cpp.Anf.Convert.{Cont, convert_cont, jump_to}
use lambcalc_cpp.Anf.Scoped.{Yields-bind, after_cond}
use lambcalc_cpp.Anf.Semantics.{Value, Env, Joins, join, join_exp, jump_exp, if_then, if_else}
use lambcalc_cpp.Anf.Preserves.Values.{Extends, Related-int, Agree-Extends}
use lambcalc_cpp.Anf.Preserves.Steps.{
  Yields-any, Yields-after, Yields-map, RunsTo, Continues, Simulates, Continues-fresh,
}

module _ (op : Bop → ℤ → ℤ → ℤ) where
  -- Where the two branches jump, when the rest of the program is known.
  Continues-jump :
      (js : Joins) (σ σ' : Env) (n m m₁ c : ℕ) (v : Source.Value) (R : Value → Type 0) (k : Cont)
      (j : Str) (body : Anf.Exp)
      → Continues op js σ n v R k
      → n ≤ m
      → Extends n σ σ'
      → k (var_value (fresh_name m)) (m + 1) ≡ done body m₁
      → Continues op (join j (some (fresh_name m)) body σ' js) σ' c v R (jump_to j)
  Continues-jump js σ σ' n m m₁ c v R k j body h le ex eq u m' σ'' w le' ex' past q r =
      let rest = Continues-fresh op js σ σ' n m v R k w h le ex r in
      let (z, runs, ok) = rw eq at rest in
      (z, jump_exp ((lambcalc_cpp.Base.str_eq_iff j j).1 refl) q runs, ok)

  pub Simulates-then :
      (ρ : Source.Env) (c t f : Ast.Exp) (i : ℤ) (v : Source.Value)
      → is_zero i ≡ false
      → Simulates op ρ c (Source.int i)
      → Simulates op ρ t v
      → Simulates op ρ (Ast.if_exp c t f) v
  unfolding convert_cont
  Simulates-then ρ c t f i v zero sim_c sim_t xs js σ k n R own (named_c, named_t, named_f) agree
        h =
      sim_c xs js σ _ n R own named_c agree λ u m σ' wu le ex past q r.
        let j = fresh_name m in
        let slot = fresh_name (m + 1) in
        let taken = Related-int σ' u i wu q r in
        Yields-after (RunsTo op js σ' R) (k (var_value slot) (m + 1 + 1)) (after_cond u j slot t f)
          λ body m₁ eq.
            let js' = join j (some slot) body σ' js in
            let goes_on =
              Continues-jump js σ σ' n (m + 1) m₁ m₁ v R k j body h (omega arith) ex eq in
            Yields-bind (RunsTo op js' σ' R) (RunsTo op js σ' R) (convert_cont t (jump_to j) m₁)
              (λ t'. convert_cont f (jump_to j) >>= λ f'.
                pure (Anf.join_exp j (some slot) body (Anf.if_exp u t' f')))
              (sim_t xs js' σ' (jump_to j) m₁ R own named_t (Agree-Extends xs ρ n σ σ' own ex agree)
                goes_on)
              λ t' m₂ (z, runs, ok).
                Yields-map (λ e. Unit) (RunsTo op js σ' R)
                  (λ f'. Anf.join_exp j (some slot) body (Anf.if_exp u t' f'))
                  (convert_cont f (jump_to j) m₂) (Yields-any (convert_cont f (jump_to j) m₂))
                  (λ f' w. (z, join_exp (if_then taken zero runs), ok))

  pub Simulates-else :
      (ρ : Source.Env) (c t f : Ast.Exp) (i : ℤ) (v : Source.Value)
      → is_zero i ≡ true
      → Simulates op ρ c (Source.int i)
      → Simulates op ρ f v
      → Simulates op ρ (Ast.if_exp c t f) v
  unfolding convert_cont
  Simulates-else ρ c t f i v zero sim_c sim_f xs js σ k n R own (named_c, named_t, named_f) agree
        h =
      sim_c xs js σ _ n R own named_c agree λ u m σ' wu le ex past q r.
        let j = fresh_name m in
        let slot = fresh_name (m + 1) in
        let taken = Related-int σ' u i wu q r in
        Yields-after (RunsTo op js σ' R) (k (var_value slot) (m + 1 + 1)) (after_cond u j slot t f)
          λ body m₁ eq.
            let js' = join j (some slot) body σ' js in
            Yields-after (RunsTo op js σ' R) (convert_cont t (jump_to j) m₁)
              (λ t'. convert_cont f (jump_to j) >>= λ f'.
                pure (Anf.join_exp j (some slot) body (Anf.if_exp u t' f')))
              λ t' m₂ conv.
                Yields-map (RunsTo op js' σ' R) (RunsTo op js σ' R)
                  (λ f'. Anf.join_exp j (some slot) body (Anf.if_exp u t' f'))
                  (convert_cont f (jump_to j) m₂)
                  (sim_f xs js' σ' (jump_to j) m₂ R own named_f
                    (Agree-Extends xs ρ n σ σ' own ex agree)
                    (Continues-jump js σ σ' n (m + 1) m₁ m₂ v R k j body h (omega arith) ex eq))
                  (λ f' (z, runs, ok). (z, join_exp (if_else taken zero runs), ok))
