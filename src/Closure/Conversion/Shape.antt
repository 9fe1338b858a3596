-- ===== src/Closure/Conversion/Shape.antt =====
-- src/convert.cpp: closure conversion leaves the join points and branches where they are.
use lambcalc_cpp.Base.{ℕ, ◌+◌, none, some, List, [], ◌∷◌, bytes, numbered}
use lambcalc_cpp.Anf
use lambcalc_cpp.Anf.{Var}
use lambcalc_cpp.Anf.Shape.{IsShaped}
use lambcalc_cpp.Closure.Conversion.{projections}
use lambcalc_cpp.Closure.Conversion.Recursive.{captured, converted}

projections-IsShaped :
    (xs : List Var) (t : Var) (i : ℕ) (body : Anf.Exp) (r : ℕ)
    → IsShaped r body
    → IsShaped r (projections xs t i body)
projections-IsShaped [] t i body r h = h
projections-IsShaped (y ∷ xs) t i body r h =
    projections-IsShaped xs t (i + 1) (Anf.proj_exp y t i body) r h

pub converted-IsShaped : (e : Anf.Exp) (n r : ℕ) → IsShaped r e → IsShaped r (converted e n).0
unfolding converted
converted-IsShaped (Anf.fun_exp name params body rest) n r (hb, hr) =
    let (rest', n₁) = converted rest (n + 1) in
    let (body', n₂) = converted body n₁ in
    (
      projections-IsShaped (captured name params body rest) (numbered (bytes "closure") n) 1 body' 1
          (converted-IsShaped body n₁ 1 hb),
      converted-IsShaped rest (n + 1) r hr,
    )
converted-IsShaped (Anf.join_exp name none body rest) n r h = absurd h
converted-IsShaped (Anf.join_exp name (some slot) body (Anf.if_exp cond t e)) n r (l, hb, ht, he) =
    let (e', n₁) = converted e n in
    let (t', n₂) = converted t n₁ in
    (l, converted-IsShaped body n₂ 0 hb, converted-IsShaped t n₁ 0 ht, converted-IsShaped e n 0 he)
converted-IsShaped (Anf.join_exp name (some slot) body _) n r h = absurd h
converted-IsShaped (Anf.app_exp name f vs rest) n r h = converted-IsShaped rest (n + 1) r h
converted-IsShaped (Anf.bop_exp name bop u v rest) n r h = converted-IsShaped rest n r h
converted-IsShaped (Anf.tuple_exp name vs rest) n r h = converted-IsShaped rest n r h
converted-IsShaped (Anf.proj_exp name t i rest) n r h = converted-IsShaped rest n r h
converted-IsShaped (Anf.jump_exp j v) n r h = tt
converted-IsShaped (Anf.halt_exp v) n r h = tt
converted-IsShaped (Anf.if_exp cond t e) n r h = absurd h
