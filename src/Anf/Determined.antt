-- ===== src/Anf/Determined.antt =====
-- include/anf.h: the values in which an expression results.
use lambcalc_cpp.Base.{◌≡◌, ◌∙◌, sym, Option, some, ℤ}
use mathlib.Core.Option.{some-injective}
use lambcalc_cpp.Ast.{Bop}
use lambcalc_cpp.Anf
use lambcalc_cpp.Anf.Semantics.{
  Value, Env, int, closure, bind, find, value_of, Joins, join, Runs, halt_exp, fun_exp, app_exp,
  bop_exp, join_exp, jump_exp, jump_out, if_then, if_else,
}

same : {a b : Value} (o : Option Value) → o ≡ some a → o ≡ some b → a ≡ b
same o p q = some-injective _ _ (sym p ∙ q)

module _ (op : Bop → ℤ → ℤ → ℤ) where
  pub Runs-determined :
      (js : Joins) (σ : Env) (e : Anf.Exp) (v w : Value)
      → Runs op js σ e v
      → Runs op js σ e w
      → v ≡ w
  Runs-determined js σ _ v w (halt_exp {u = u} p) (halt_exp q) = same (value_of σ u) p q
  Runs-determined js σ _ v w (fun_exp {x = x} {ps = ps} {body = body} {rest = rest} r) (fun_exp s) =
      Runs-determined js (bind x (closure ps body σ) σ) rest v w r s
  Runs-determined js σ _ v w
        (app_exp {σ' = σ₁} {x = x} {f = f} {p = p₁} {body = b₁} {rest = rest} {u = u} {a = a}
          {b = z} pf pu pc pr)
        (app_exp {σ' = σ₂} {p = p₂} {body = b₂} {a = a'} {b = z'} qf qu qc qr) =
      let c = same (find σ f) qf pf in
      let eq_p : p₂ ≡ p₁ = cc in
      let eq_b : b₂ ≡ b₁ = cc in
      let eq_σ : σ₂ ≡ σ₁ = cc in
      let eq_a : a' ≡ a = same (value_of σ u) qu pu in
      let called = rw (eq_p, eq_b, eq_σ, eq_a) at qc in
      let eq_z = Runs-determined Anf.Semantics.no_joins (bind p₁ a σ₁) b₁ z z' pc called in
      Runs-determined js (bind x z σ) rest v w pr (rw (sym eq_z) at qr)
  Runs-determined js σ _ v w
        (bop_exp {x = x} {bop = bop} {u = u} {v = u'} {i = i} {j = j} {rest = rest} p q r)
        (bop_exp {i = i'} {j = j'} p' q' r') =
      let a = same (value_of σ u) p' p in
      let b = same (value_of σ u') q' q in
      let eq_i : i' ≡ i = cc in
      let eq_j : j' ≡ j = cc in
      Runs-determined js (bind x (int (op bop i j)) σ) rest v w r (rw (eq_i, eq_j) at r')
  Runs-determined js σ _ v w (join_exp {j = j} {slot = slot} {body = body} {rest = rest} r)
        (join_exp s) =
      Runs-determined (join j slot body σ js) σ rest v w r s
  Runs-determined _ σ _ v w
        (jump_exp {js = js} {σ' = σ'} {x = x} {u = u} {body = body} {a = a} e p r)
        (jump_exp e' q s) =
      let eq = same (value_of σ u) q p in Runs-determined js (bind x a σ') body v w r (rw eq at s)
  Runs-determined _ σ _ v w (jump_exp e p r) (jump_out ne s) = absurd (cc)
  Runs-determined _ σ _ v w (jump_out ne r) (jump_exp e p s) = absurd (cc)
  Runs-determined _ σ _ v w (jump_out {js = js} {j = j} {u = u} ne r) (jump_out ne' s) =
      Runs-determined js σ (Anf.jump_exp j u) v w r s
  Runs-determined js σ _ v w (if_then {t = t} p z r) (if_then p' z' s) =
      Runs-determined js σ t v w r s
  Runs-determined js σ _ v w (if_else {e = e} p z r) (if_else p' z' s) =
      Runs-determined js σ e v w r s
  Runs-determined js σ _ v w (if_then {u = u} {i = i} p z r) (if_else {i = i'} p' z' s) =
      let q = same (value_of σ u) p p' in let k : i ≡ i' = cc in absurd (cc)
  Runs-determined js σ _ v w (if_else {u = u} {i = i} p z r) (if_then {i = i'} p' z' s) =
      let q = same (value_of σ u) p p' in let k : i ≡ i' = cc in absurd (cc)
