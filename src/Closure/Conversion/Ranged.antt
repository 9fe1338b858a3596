-- ===== src/Closure/Conversion/Ranged.antt =====
-- src/convert.cpp: closure conversion keeps the names of functions, and their order.
use lambcalc_cpp.Base.{ℕ, ◌+◌, List, [], ◌∷◌, bytes, numbered}
use lambcalc_cpp.Anf
use lambcalc_cpp.Anf.{Var}
use lambcalc_cpp.Anf.Ranged.{IsRanged}
use lambcalc_cpp.Closure.Conversion.{projections}
use lambcalc_cpp.Closure.Conversion.Recursive.{captured, converted}

projections-IsRanged :
    (xs : List Var) (t : Var) (i : ℕ) (body : Anf.Exp) (n m : ℕ)
    → IsRanged n body m
    → IsRanged n (projections xs t i body) m
projections-IsRanged [] t i body n m h = h
projections-IsRanged (y ∷ xs) t i body n m h =
    projections-IsRanged xs t (i + 1) (Anf.proj_exp y t i body) n m h

pub converted-IsRanged : (e : Anf.Exp) (c n m : ℕ) → IsRanged n e m → IsRanged n (converted e c).0 m
unfolding converted
converted-IsRanged (Anf.fun_exp name params body rest) c n m (k, hb, q, hr) =
    let (rest', c₁) = converted rest (c + 1) in
    let (body', c₂) = converted body c₁ in
    (
      k,
      projections-IsRanged (captured name params body rest) (numbered (bytes "closure") c) 1 body' n
          k (converted-IsRanged body c₁ n k hb),
      q,
      converted-IsRanged rest (c + 1) (k + 1) m hr,
    )
converted-IsRanged (Anf.join_exp name slot body rest) c n m (k, hb, hr) =
    (k, converted-IsRanged body (converted rest c).1 n k hb, converted-IsRanged rest c k m hr)
converted-IsRanged (Anf.if_exp cond t e) c n m (k, ht, he) =
    (k, converted-IsRanged t (converted e c).1 n k ht, converted-IsRanged e c k m he)
converted-IsRanged (Anf.app_exp name f vs rest) c n m h = converted-IsRanged rest (c + 1) n m h
converted-IsRanged (Anf.bop_exp name bop u v rest) c n m h = converted-IsRanged rest c n m h
converted-IsRanged (Anf.tuple_exp name vs rest) c n m h = converted-IsRanged rest c n m h
converted-IsRanged (Anf.proj_exp name t i rest) c n m h = converted-IsRanged rest c n m h
converted-IsRanged (Anf.jump_exp j v) c n m h = h
converted-IsRanged (Anf.halt_exp v) c n m h = h
