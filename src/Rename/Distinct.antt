-- ===== src/Rename/Distinct.antt =====
-- src/rename.cpp: each parameter gets a name of its own.
use mathlib.Core.Option.{some-injective}
use lambcalc_cpp.Base.{
  ℕ, ◌+◌, ◌≤◌, ◌<◌, ◌≡◌, refl, ◌∙◌, sym, ◌⊎◌, inl, inr, true, ◌&&◌, Option, none, some, [], Str,
  numbered, arith,
}
use lambcalc_cpp.Ast
use lambcalc_cpp.Rename.{Renaming, empty, rename, renamed}
use lambcalc_cpp.Rename.Recursive.{Result, ok, unbound, bind, var_result, rename_from}
use lambcalc_cpp.Rename.Correct.{outcome, rename-eq-rename_from}
use lambcalc_cpp.Rename.Scope.{in_scope, rename-renamed}
use lambcalc_cpp.Rename.Fresh.{is_plain, numbered-injective}
use lambcalc_cpp.Rename.Binding.{has_plain_params, both}

-- A function of the expression has the parameter.
abbrev pub Binds : Ast.Exp → Str → Type 0
Binds (Ast.int_exp i) y = ⊥
Binds (Ast.var_exp x) y = ⊥
Binds (Ast.lam_exp x body) y = (y ≡ x) ⊎ Binds body y
Binds (Ast.app_exp fn arg) y = Binds fn y ⊎ Binds arg y
Binds (Ast.bop_exp bop a b) y = Binds a y ⊎ Binds b y
Binds (Ast.if_exp c t e) y = Binds c y ⊎ (Binds t y ⊎ Binds e y)

abbrev pub AreApart : Ast.Exp → Ast.Exp → Type 0
AreApart a b = (y : Str) → Binds a y → Binds b y → ⊥

-- No two functions of the expression have the same parameter.
abbrev pub HasDistinctParams : Ast.Exp → Type 0
HasDistinctParams (Ast.int_exp i) = Unit
HasDistinctParams (Ast.var_exp x) = Unit
HasDistinctParams (Ast.lam_exp x body) = (Binds body x → ⊥) × HasDistinctParams body
HasDistinctParams (Ast.app_exp fn arg) =
    HasDistinctParams fn × HasDistinctParams arg × AreApart fn arg
HasDistinctParams (Ast.bop_exp bop a b) = HasDistinctParams a × HasDistinctParams b × AreApart a b
HasDistinctParams (Ast.if_exp c t e) =
    HasDistinctParams c
    × HasDistinctParams t
    × HasDistinctParams e
    × AreApart c t
    × AreApart c e
    × AreApart t e

-- The name is made at a counter from `n` on, and before `m`.
abbrev IsMade : ℕ → ℕ → Str → Type 0
IsMade n m y = (x : Str) × (k : ℕ) × (y ≡ numbered x k) × (is_plain x ≡ true) × (n ≤ k) × (k < m)

IsMade-weaken : (n n' m m' : ℕ) (y : Str) → n' ≤ n → m ≤ m' → IsMade n m y → IsMade n' m' y
IsMade-weaken n n' m m' y h h' (x, k, e, p, l, l') = (x, k, e, p, omega arith, omega arith)

IsMade-apart : (n m n' m' : ℕ) (y : Str) → m ≤ n' → IsMade n m y → IsMade n' m' y → ⊥
IsMade-apart n m n' m' y h (x, k, e, p, l, l') (x', k', e', p', j, j') =
    let same : k ≡ k' = numbered-injective x x' k k' p p' (sym e ∙ e') in omega arith

-- The parameters of the result are made at the counters that the renaming goes through.
abbrev Names : ℕ → Ast.Exp → ℕ → Type 0
Names n e m = (n ≤ m) × HasDistinctParams e × ((y : Str) → Binds e y → IsMade n m y)

abbrev IsNamed : ℕ → Result Ast.Exp → Type 0
IsNamed n (ok e m) = Names n e m
IsNamed n (unbound x) = Unit

IsNamed-bind :
    (n n' : ℕ) (r : Result Ast.Exp) (k : Ast.Exp → ℕ → Result Ast.Exp)
    → IsNamed n r
    → ((e : Ast.Exp) (m : ℕ) → Names n e m → IsNamed n' (k e m))
    → IsNamed n' (bind r k)
IsNamed-bind n n' (ok e m) k h g = g e m h
IsNamed-bind n n' (unbound x) k h g = tt

-- What is named one after the other is apart.
Names-AreApart : (n m m' : ℕ) (a b : Ast.Exp) → Names n a m → Names m b m' → AreApart b a
Names-AreApart n m m' a b (_, _, ha) (_, _, hb) y p q =
    IsMade-apart n m m m' y (omega arith) (ha y q) (hb y p)

Names-pair :
    (n m m' : ℕ) (a b : Ast.Exp)
    → Names n a m
    → Names m b m'
    → (y : Str) → Binds b y ⊎ Binds a y
    → IsMade n m' y
Names-pair n m m' a b (l, _, ha) (l', _, hb) y (inl p) =
    IsMade-weaken m n m' m' y l (omega arith) (hb y p)
Names-pair n m m' a b (l, _, ha) (l', _, hb) y (inr p) =
    IsMade-weaken n n m m' y (omega arith) l' (ha y p)

Names-widen : (n m m' : ℕ) (e : Ast.Exp) → Names n e m → m ≤ m' → Names n e m'
Names-widen n m m' e (l, d, made) h =
    (omega arith, d, λ y b. IsMade-weaken n n m m' y (omega arith) h (made y b))

rename_from-IsNamed :
    (e : Ast.Exp) (ρ : Renaming) (n : ℕ) → has_plain_params e ≡ true → IsNamed n (rename_from ρ e n)
unfolding rename_from
rename_from-IsNamed (Ast.int_exp i) ρ n h = (omega arith, tt, λ y. absurd)
rename_from-IsNamed (Ast.var_exp x) ρ n h = go (ρ x)
  where
    go : (o : Option Str) → IsNamed n (var_result x o n)
    go none = tt
    go (some y) = (omega arith, tt, λ y. absurd)
rename_from-IsNamed (Ast.lam_exp x body) ρ n h =
    let (p, hb) = both (is_plain x) (has_plain_params body) h in
    IsNamed-bind (n + 1) n _ _ (rename_from-IsNamed body _ (n + 1) hb) λ e m (le, d, made). (
      omega arith,
      (
        (λ b.
            IsMade-apart n (n + 1) (n + 1) m (numbered x n) (omega arith)
              (x, n, refl, p, omega arith, omega arith) (made (numbered x n) b)),
        d,
      ),
      λ y b. elim b [
        | inl q ↦ (x, n, q, p, omega arith, omega arith)
        | inr b ↦ IsMade-weaken (n + 1) n m m y (omega arith) (omega arith) (made y b)
      ],
    )
rename_from-IsNamed (Ast.app_exp fn arg) ρ n h =
    let (hf, ha) = both (has_plain_params fn) (has_plain_params arg) h in
    IsNamed-bind n n _ _ (rename_from-IsNamed arg ρ n ha) λ a m na.
      IsNamed-bind m n _ _ (rename_from-IsNamed fn ρ m hf) λ f m' nf. (
        omega (arith, na.0, nf.0),
        (nf.1, na.1, Names-AreApart n m m' a f na nf),
        Names-pair n m m' a f na nf,
      )
rename_from-IsNamed (Ast.bop_exp bop a b) ρ n h =
    let (ha, hb) = both (has_plain_params a) (has_plain_params b) h in
    IsNamed-bind n n _ _ (rename_from-IsNamed b ρ n hb) λ b' m nb.
      IsNamed-bind m n _ _ (rename_from-IsNamed a ρ m ha) λ a' m' na. (
        omega (arith, na.0, nb.0),
        (na.1, nb.1, Names-AreApart n m m' b' a' nb na),
        Names-pair n m m' b' a' nb na,
      )
rename_from-IsNamed (Ast.if_exp c t e) ρ n h =
    let (hc, hr) = both (has_plain_params c) (has_plain_params t && has_plain_params e) h in
    let (ht, he) = both (has_plain_params t) (has_plain_params e) hr in
    IsNamed-bind n n _ _ (rename_from-IsNamed e ρ n he) λ e' m ne.
      IsNamed-bind m n _ _ (rename_from-IsNamed t ρ m ht) λ t' m' nt.
        IsNamed-bind m' n _ _ (rename_from-IsNamed c ρ m' hc) λ c' m'' nc.
          let nte = Names-widen n m m' e' ne nt.0 in
          (
            omega (arith, ne.0, nt.0, nc.0),
            (
              nc.1,
              nt.1,
              ne.1,
              Names-AreApart m m' m'' t' c' nt nc,
              Names-AreApart n m' m'' e' c' nte nc,
              Names-AreApart n m m' e' t' ne nt,
            ),
            λ y b. elim b [
              | inl b ↦ IsMade-weaken m' n m'' m'' y (omega (arith, nte.0)) (omega arith) (nc.2 y b)
              | inr b ↦
                  IsMade-weaken n n m' m'' y (omega arith) nc.0 (Names-pair n m m' e' t' ne nt y b)
            ],
          )

IsNamed-renamed :
    (r : Result Ast.Exp) (e : Ast.Exp) → IsNamed 0 r → outcome r ≡ renamed e → HasDistinctParams e
IsNamed-renamed (ok e' n) e (_, d, _) p = let q : e' ≡ e = cc in rw q at d
IsNamed-renamed (unbound x) e h p = absurd (cc)

-- If no parameter ends in a digit, and each variable is a parameter of a function around it, `rename`
-- ends, and no two functions of the result have the same parameter.
pub rename-HasDistinctParams :
    (root : Ast.Exp)
    → in_scope [] root ≡ true
    → has_plain_params root ≡ true
    → (e : Ast.Exp) × (rename root ≡ some (renamed e)) × HasDistinctParams e
rename-HasDistinctParams root scoped plain =
    let (e, p, _) = rename-renamed root scoped in
    let named = rename_from-IsNamed root empty 0 plain in
    (
      e,
      p,
      IsNamed-renamed (rename_from empty root 0) e named
          (some-injective _ _ (sym (rename-eq-rename_from root) ∙ p)),
    )
