-- ===== src/Closure/Conversion/Scoped.antt =====
-- src/convert.cpp: closure conversion keeps the scopes of join points.
use lambcalc_cpp.Base.{ℕ, ◌+◌, List, [], ◌∷◌, Str, ◌≡◌, ◌⊎◌}
use lambcalc_cpp.Anf
use lambcalc_cpp.Anf.{Var}
use lambcalc_cpp.Anf.Scoped.{IsScoped}
use lambcalc_cpp.Closure.Conversion.{projections}
use lambcalc_cpp.Closure.Conversion.Recursive.{converted, captured}

projections-IsScoped :
    (xs : List Var) (t : Var) (i : ℕ) (P : Str → Type 0) (body : Anf.Exp)
    → IsScoped P body
    → IsScoped P (projections xs t i body)
projections-IsScoped [] t i P body h = h
projections-IsScoped (x ∷ xs) t i P body h = projections-IsScoped xs t (i + 1) P _ h

pub converted-IsScoped :
    (e : Anf.Exp) (P : Str → Type 0) (n : ℕ) → IsScoped P e → IsScoped P (converted e n).0
unfolding converted
converted-IsScoped (Anf.fun_exp name params body rest) P n (b, r) =
    let n₁ = (converted rest (n + 1)).1 in
    (
      projections-IsScoped (captured name params body rest) _ 1 (λ _. ⊥) _
          (converted-IsScoped body (λ _. ⊥) n₁ b),
      converted-IsScoped rest P (n + 1) r,
    )
converted-IsScoped (Anf.join_exp name slot body rest) P n (b, r) = (
  converted-IsScoped body P (converted rest n).1 b,
  converted-IsScoped rest (λ x. (x ≡ name) ⊎ P x) n r,
)
converted-IsScoped (Anf.if_exp v t e) P n (ht, he) =
    (converted-IsScoped t P (converted e n).1 ht, converted-IsScoped e P n he)
converted-IsScoped (Anf.app_exp name f vs rest) P n h = converted-IsScoped rest P (n + 1) h
converted-IsScoped (Anf.bop_exp name bop u v rest) P n h = converted-IsScoped rest P n h
converted-IsScoped (Anf.tuple_exp name vs rest) P n h = converted-IsScoped rest P n h
converted-IsScoped (Anf.proj_exp name t i rest) P n h = converted-IsScoped rest P n h
converted-IsScoped (Anf.halt_exp v) P n h = tt
converted-IsScoped (Anf.jump_exp j v) P n h = h
