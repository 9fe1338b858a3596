-- ===== src/Closure/Conversion/Known.antt =====
-- src/convert.cpp: a converted function uses only its parameters and what it binds itself.
use lambcalc_cpp.Base.{
  ℕ, ◌+◌, ◌≡◌, inl, inr, Bool-cases, Bool, refl, true, false, Option, none, some, List, [], ◌∷◌,
  ◌++◌, map, Str, str_eq, str_eq_iff, bytes, numbered, arith,
}
use lambcalc_cpp.Anf
use lambcalc_cpp.Anf.{Var, Value, int_value, var_value, glob_value}
use lambcalc_cpp.Anf.Known.{
  Names, extend, extend_all, extend_slot, extend_all-left, IsKnown, AreKnown, IsClosed,
}
use lambcalc_cpp.VarSet.{contains}
use lambcalc_cpp.Closure.FreeVars.Meaning.{occurs, occurs_any, occurs_slot, is_slot, is_free}
use lambcalc_cpp.Anf.Unshadowed.{slot_names, IsUnshadowed}
use lambcalc_cpp.Closure.FreeVars.Unshadowed.{is_free-contains, IsUnshadowed-IsClean}
use lambcalc_cpp.Closure.Conversion.{projections}
use lambcalc_cpp.Closure.Conversion.Recursive.{captured, converted}
use lambcalc_cpp.Closure.Conversion.Closed.{contains-captured}

abbrev Holds : (Str → Bool) → Names → Type 0
Holds f K = (x : Str) → f x ≡ true → K x

Holds-extend :
    (f g : Str → Bool) (name : Var) (K : Names)
    → Holds g K
    → ((x : Str) → f x ≡ true → str_eq x name ≡ false → g x ≡ true)
    → Holds f (extend name K)
Holds-extend f g name K h k x e = elim (Bool-cases (str_eq x name)) [
  | inl q ↦ inl ((str_eq_iff x name).0 q)
  | inr q ↦ inr (h x (k x e q))
]

Holds-IsKnown : (v : Value) (K : Names) → Holds (occurs v) K → IsKnown K v
unfolding occurs
Holds-IsKnown (int_value i) K h = tt
Holds-IsKnown (var_value x) K h = h x ((str_eq_iff x x).1 refl)
Holds-IsKnown (glob_value x) K h = tt

Holds-AreKnown : (vs : List Value) (K : Names) → Holds (occurs_any vs) K → AreKnown K vs
unfolding occurs_any
Holds-AreKnown [] K h = tt
Holds-AreKnown (v ∷ vs) K h =
    (Holds-IsKnown v K (λ x o. h x (ground arith)), Holds-AreKnown vs K (λ x o. h x (ground arith)))

AreKnown-map : (xs : List Var) (K : Names) → Holds (contains xs) K → AreKnown K (map var_value xs)
unfolding contains
AreKnown-map [] K h = tt
AreKnown-map (x ∷ xs) K h =
    (h x (ground (arith, (str_eq_iff x x).1)), AreKnown-map xs K (λ y c. h y (ground arith)))

extend_all-contains : (xs : List Var) (K : Names) → Holds (contains xs) (extend_all xs K)
unfolding contains
extend_all-contains [] K x c = absurd (cc)
extend_all-contains (y ∷ xs) K x c = elim (Bool-cases (str_eq x y)) [
  | inl e ↦ extend_all-left xs (extend y K) x (inl ((str_eq_iff x y).0 e))
  | inr e ↦ extend_all-contains xs (extend y K) x (rw e at c)
]

Holds-slot :
    (slot : Option Var) (f g : Str → Bool) (K : Names)
    → Holds g K
    → ((x : Str) → f x ≡ true → is_slot slot x ≡ false → g x ≡ true)
    → Holds f (extend_slot slot K)
unfolding is_slot
Holds-slot none f g K h k = λ x e. h x (k x e refl)
Holds-slot (some y) f g K h k = Holds-extend f g y K h k

-- A body behind projections may use what they bind.
projections-IsClosed :
    (xs : List Var) (t : Var) (i : ℕ) (body : Anf.Exp) (K : Names)
    → K t
    → ((P : Names) → ((x : Str) → K x → P x) → Holds (contains xs) P → IsClosed P body)
    → IsClosed K (projections xs t i body)
unfolding contains
projections-IsClosed [] t i body K k h = h K (λ x p. p) (λ x c. absurd (cc))
projections-IsClosed (y ∷ xs) t i body K k h =
    projections-IsClosed xs t (i + 1) (Anf.proj_exp y t i body) K k λ P sub held. (
      sub t k,
      h (extend y P) (λ x p. inr (sub x p))
          (Holds-extend (contains (y ∷ xs)) (contains xs) y P held (λ x c q. ground arith)),
    )

pub converted-IsClosed :
    (e : Anf.Exp) (n : ℕ) (K : Names) (ys : List Str)
    → IsUnshadowed ys e
    → Holds (is_free e) K
    → IsClosed K (converted e n).0
unfolding converted is_free occurs contains occurs_slot
converted-IsClosed (Anf.halt_exp v) n K ys c h = Holds-IsKnown v K h
converted-IsClosed (Anf.jump_exp j none) n K ys c h = tt
converted-IsClosed (Anf.jump_exp j (some v)) n K ys c h = Holds-IsKnown v K h
converted-IsClosed (Anf.fun_exp name params body rest) n K ys (a, ps, b, r) h =
    let xs = captured name params body rest in
    let f = Anf.fun_exp name params body rest in
    let (rest', n₁) = converted rest (n + 1) in
    let (body', n₂) = converted body n₁ in
    let t = numbered (bytes "closure") n in
    let clean = IsUnshadowed-IsClean f ys (a, ps, b, r) in
    (
      projections-IsClosed xs t 1 body' (extend_all (t ∷ params) (λ x. ⊥))
          (extend_all-left params (extend t (λ x. ⊥)) t (inl refl))
          (λ P sub held. converted-IsClosed body n₁ P (params ++ ys) b (λ x e.
            elim (Bool-cases (contains params x)) [
              | inl q ↦ sub x (extend_all-contains params (extend t (λ x. ⊥)) x q)
              | inr q ↦ held x (ground (arith, contains-captured name params body rest clean x))
            ])),
      (
        (
          tt,
          AreKnown-map xs K
              (λ x c. h x (ground (arith, contains-captured name params body rest clean x))),
        ),
        converted-IsClosed rest (n + 1) (extend name K) (name ∷ ys) r
            (Holds-extend (is_free rest) (is_free f) name K h (λ x e q. ground arith)),
      ),
    )
converted-IsClosed (Anf.join_exp name slot body rest) n K ys (a, ps, b, r) h =
    let e = Anf.join_exp name slot body rest in
    (
      converted-IsClosed body (converted rest n).1 (extend_slot slot K) (slot_names slot ++ ys) b
          (Holds-slot slot (is_free body) (is_free e) K h (λ x e q. ground arith)),
      converted-IsClosed rest n K ys r (λ x f. elim (Bool-cases (str_eq x name)) [
        | inl q ↦
            let p = (str_eq_iff x name).0 q in
            let used = is_free-contains rest ys x r f in let used' = rw p at used in absurd (cc)
        | inr q ↦ h x (ground arith)
      ]),
    )
converted-IsClosed (Anf.app_exp name f vs rest) n K ys (_, _, _, r) h =
    let e = Anf.app_exp name f vs rest in
    let proj = numbered (bytes "proj") n in
    let K' = extend proj K in
    (
      h f (ground (arith, (str_eq_iff f f).1)),
      (
        inl refl,
        (
          inr (h f (ground (arith, (str_eq_iff f f).1))),
          Holds-AreKnown vs K' (λ x o. inr (h x (ground arith))),
        ),
        converted-IsClosed rest (n + 1) (extend name K') (name ∷ ys) r (
            Holds-extend (is_free rest) (is_free e) name K' (λ x e. inr (h x e))
              (λ x e q. ground arith)),
      ),
    )
converted-IsClosed (Anf.bop_exp name bop u v rest) n K ys (_, _, _, r) h = (
  Holds-IsKnown u K (λ x o. h x (ground arith)),
  Holds-IsKnown v K (λ x o. h x (ground arith)),
  converted-IsClosed rest n (extend name K) (name ∷ ys) r (
      Holds-extend (is_free rest) (is_free (Anf.bop_exp name bop u v rest)) name K h
        (λ x e q. ground arith)),
)
converted-IsClosed (Anf.if_exp v t e) n K ys (_, ct, ce) h = (
  Holds-IsKnown v K (λ x o. h x (ground arith)),
  converted-IsClosed t (converted e n).1 K ys ct (λ x o. h x (ground arith)),
  converted-IsClosed e n K ys ce (λ x o. h x (ground arith)),
)
converted-IsClosed (Anf.tuple_exp name vs rest) n K ys (_, _, r) h = (
  Holds-AreKnown vs K (λ x o. h x (ground arith)),
  converted-IsClosed rest n (extend name K) (name ∷ ys) r (
      Holds-extend (is_free rest) (is_free (Anf.tuple_exp name vs rest)) name K h
        (λ x e q. ground arith)),
)
converted-IsClosed (Anf.proj_exp name t i rest) n K ys (_, _, r) h = (
  h t (ground (arith, (str_eq_iff t t).1)),
  converted-IsClosed rest n (extend name K) (name ∷ ys) r (
      Holds-extend (is_free rest) (is_free (Anf.proj_exp name t i rest)) name K h
        (λ x e q. ground arith)),
)
