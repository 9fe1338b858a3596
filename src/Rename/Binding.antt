-- ===== src/Rename/Binding.antt =====
-- src/rename.cpp: each variable stays bound by the parameter that bound it.
use mathlib.Core.Option.{some-injective}
use lambcalc_cpp.Base.{
  ℕ, suc, ◌+◌, ◌≤◌, ◌≡◌, refl, ◌∙◌, ap, sym, inl, inr, Bool, true, false, ◌&&◌, Option, none, some,
  List, [], ◌∷◌, Str, ℤ, str_eq, str_eq_iff, numbered, Bool-cases, arith, if◌then◌else◌,
}
use lambcalc_cpp.Ast
use lambcalc_cpp.Ast.{Bop}
use lambcalc_cpp.Rename.{Renaming, assign, empty, rename, renamed}
use lambcalc_cpp.Rename.Recursive.{Result, ok, unbound, bind, var_result, rename_from}
use lambcalc_cpp.Rename.Correct.{outcome, rename-eq-rename_from}
use lambcalc_cpp.Rename.Scope.{in_scope, rename-renamed}
use lambcalc_cpp.Rename.Fresh.{is_plain, numbered-injective}

-- An expression whose variables say how many parameters stand between them and their own, and `none`
-- where no function around has it.
pub data Nameless : Type 0 where
  int_exp : ℤ → Nameless
  var_exp : Option ℕ → Nameless
  lam_exp : Nameless → Nameless
  app_exp : Nameless → Nameless → Nameless
  bop_exp : Bop → Nameless → Nameless → Nameless
  if_exp : Nameless → Nameless → Nameless → Nameless

abbrev pub next_index : Option ℕ → Option ℕ
next_index none = none
next_index (some i) = some (suc i)

-- Where the name stands first among the parameters, the innermost in front.
abbrev pub index : List Str → Str → Option ℕ
index [] x = none
index (y ∷ ys) x = let rest = index ys x in if str_eq x y then some 0 else next_index rest

abbrev pub nameless : List Str → Ast.Exp → Nameless
nameless xs (Ast.int_exp i) = int_exp i
nameless xs (Ast.var_exp x) = var_exp (index xs x)
nameless xs (Ast.lam_exp x body) = lam_exp (nameless (x ∷ xs) body)
nameless xs (Ast.app_exp fn arg) = app_exp (nameless xs fn) (nameless xs arg)
nameless xs (Ast.bop_exp bop a b) = bop_exp bop (nameless xs a) (nameless xs b)
nameless xs (Ast.if_exp c t e) = if_exp (nameless xs c) (nameless xs t) (nameless xs e)

-- No parameter ends in a digit.
abbrev pub has_plain_params : Ast.Exp → Bool
has_plain_params (Ast.int_exp i) = true
has_plain_params (Ast.var_exp x) = true
has_plain_params (Ast.lam_exp x body) = is_plain x && has_plain_params body
has_plain_params (Ast.app_exp fn arg) = has_plain_params fn && has_plain_params arg
has_plain_params (Ast.bop_exp bop a b) = has_plain_params a && has_plain_params b
has_plain_params (Ast.if_exp c t e) =
    has_plain_params c && (has_plain_params t && has_plain_params e)

-- The new name of a variable stands where its own name stands.
abbrev IsSame : List Str → Option Str → Option ℕ → Type 0
IsSame ys none none = Unit
IsSame ys none (some i) = ⊥
IsSame ys (some y) none = ⊥
IsSame ys (some y) (some i) = index ys y ≡ some i

abbrev AreSame : Renaming → List Str → List Str → Type 0
AreSame ρ xs ys = (z : Str) → IsSame ys (ρ z) (index xs z)

-- None of the names is made at the counter or later.
abbrev AreOld : List Str → ℕ → Type 0
AreOld ys n = (x : Str) (k : ℕ) → n ≤ k → is_plain x ≡ true → index ys (numbered x k) ≡ none

IsSame-cons :
    (y : Str) (ys : List Str) (o : Option Str) (i : Option ℕ)
    → index ys y ≡ none
    → IsSame ys o i
    → IsSame (y ∷ ys) o (next_index i)
IsSame-cons y ys none none h k = k
IsSame-cons y ys none (some i) h k = k
IsSame-cons y ys (some z) none h k = k
IsSame-cons y ys (some z) (some i) h k = elim (Bool-cases (str_eq z y)) [
  | inl e ↦
      let q : z ≡ y = (str_eq_iff z y).0 e in
      let k' : index ys y ≡ some i = rw q at k in absurd (cc)
  | inr e ↦ rw (e, k)
]

AreSame-assign :
    (ρ : Renaming) (xs ys : List Str) (x y : Str)
    → index ys y ≡ none
    → AreSame ρ xs ys
    → AreSame (assign x (some y) ρ) (x ∷ xs) (y ∷ ys)
AreSame-assign ρ xs ys x y h same z = elim (Bool-cases (str_eq z x)) [
  | inl e ↦ rw (e, (str_eq_iff y y).1 refl)
  | inr e ↦ rw (e) (IsSame-cons y ys (ρ z) (index xs z) h (same z))
]

AreOld-cons :
    (ys : List Str) (x : Str) (n : ℕ)
    → is_plain x ≡ true
    → AreOld ys n
    → AreOld (numbered x n ∷ ys) (n + 1)
AreOld-cons ys x n p old z k le q = elim (Bool-cases (str_eq (numbered z k) (numbered x n))) [
  | inl e ↦
      let same : k ≡ n =
        numbered-injective z x k n q p ((str_eq_iff (numbered z k) (numbered x n)).0 e) in
      absurd (omega arith)
  | inr e ↦ rw (e, old z k (omega arith) q)
]

-- What the renaming from the counter `n` on returns.
abbrev Keeps : Nameless → List Str → ℕ → Result Ast.Exp → Type 0
Keeps o ys n (ok e m) = (nameless ys e ≡ o) × (n ≤ m)
Keeps o ys n (unbound x) = Unit

Keeps-bind :
    (o o' : Nameless) (ys ys' : List Str) (n : ℕ) (r : Result Ast.Exp)
    (k : Ast.Exp → ℕ → Result Ast.Exp)
    → Keeps o ys n r
    → ((e : Ast.Exp) (m : ℕ) → n ≤ m → nameless ys e ≡ o → Keeps o' ys' n (k e m))
    → Keeps o' ys' n (bind r k)
Keeps-bind o o' ys ys' n (ok e m) k (p, le) h = h e m le p
Keeps-bind o o' ys ys' n (unbound x) k h g = tt

Keeps-weaken :
    (o : Nameless) (ys : List Str) (n m : ℕ) (r : Result Ast.Exp)
    → n ≤ m
    → Keeps o ys m r
    → Keeps o ys n r
Keeps-weaken o ys n m (ok e k) le (p, l) = (p, omega arith)
Keeps-weaken o ys n m (unbound x) le h = tt

pub both : (a b : Bool) → (a && b) ≡ true → (a ≡ true) × (b ≡ true)
both true b h = (refl, h)
both false b h = absurd (cc)

rename_from-Keeps :
    (e : Ast.Exp) (ρ : Renaming) (xs ys : List Str) (n : ℕ)
    → AreSame ρ xs ys
    → AreOld ys n
    → has_plain_params e ≡ true
    → Keeps (nameless xs e) ys n (rename_from ρ e n)
unfolding rename_from
rename_from-Keeps (Ast.int_exp i) ρ xs ys n same old h = (refl, omega arith)
rename_from-Keeps (Ast.var_exp x) ρ xs ys n same old h = go (ρ x) (index xs x) (same x)
  where
    go : (o : Option Str) (i : Option ℕ) → IsSame ys o i → Keeps (var_exp i) ys n (var_result x o n)
    go none i k = tt
    go (some y) none k = absurd k
    go (some y) (some i) k = (ap var_exp k, omega arith)
rename_from-Keeps (Ast.lam_exp x body) ρ xs ys n same old h =
    let (p, hb) = both (is_plain x) (has_plain_params body) h in
    let y = numbered x n in
    Keeps-bind (nameless (x ∷ xs) body) _ (y ∷ ys) ys n _ _
      (Keeps-weaken _ (y ∷ ys) n (n + 1) _ (omega arith) (
        rename_from-Keeps body _ (x ∷ xs) (y ∷ ys) (n + 1)
          (AreSame-assign ρ xs ys x y (old x n (omega arith) p) same) (AreOld-cons ys x n p old)
          hb))
      (λ e m le q. (ap lam_exp q, le))
rename_from-Keeps (Ast.app_exp fn arg) ρ xs ys n same old h =
    let (hf, ha) = both (has_plain_params fn) (has_plain_params arg) h in
    Keeps-bind (nameless xs arg) _ ys ys n _ _ (rename_from-Keeps arg ρ xs ys n same old ha)
      λ a m le p. Keeps-weaken _ ys n m _ le (
        Keeps-bind (nameless xs fn) _ ys ys m _ _
          (rename_from-Keeps fn ρ xs ys m same (λ x k l. old x k (omega arith)) hf)
          (λ f m' le' q. (rw (p, q), le')))
rename_from-Keeps (Ast.bop_exp bop a b) ρ xs ys n same old h =
    let (ha, hb) = both (has_plain_params a) (has_plain_params b) h in
    Keeps-bind (nameless xs b) _ ys ys n _ _ (rename_from-Keeps b ρ xs ys n same old hb)
      λ b' m le p. Keeps-weaken _ ys n m _ le (
        Keeps-bind (nameless xs a) _ ys ys m _ _
          (rename_from-Keeps a ρ xs ys m same (λ x k l. old x k (omega arith)) ha)
          (λ a' m' le' q. (rw (p, q), le')))
rename_from-Keeps (Ast.if_exp c t e) ρ xs ys n same old h =
    let (hc, hr) = both (has_plain_params c) (has_plain_params t && has_plain_params e) h in
    let (ht, he) = both (has_plain_params t) (has_plain_params e) hr in
    Keeps-bind (nameless xs e) _ ys ys n _ _ (rename_from-Keeps e ρ xs ys n same old he)
      λ e' m le p. Keeps-weaken _ ys n m _ le (
        Keeps-bind (nameless xs t) _ ys ys m _ _
          (rename_from-Keeps t ρ xs ys m same (λ x k l. old x k (omega arith)) ht)
          λ t' m' le' q. Keeps-weaken _ ys m m' _ le' (
            Keeps-bind (nameless xs c) _ ys ys m' _ _
              (rename_from-Keeps c ρ xs ys m' same (λ x k l. old x k (omega arith)) hc)
              (λ c' m'' le'' r. (rw (p, q, r), le''))))

Keeps-renamed :
    (o : Nameless) (r : Result Ast.Exp) (e : Ast.Exp)
    → Keeps o [] 0 r
    → outcome r ≡ renamed e
    → nameless [] e ≡ o
Keeps-renamed o (ok e' n) e (h, le) p = let q : e' ≡ e = cc in rw q at h
Keeps-renamed o (unbound x) e h p = absurd (cc)

-- If no parameter ends in a digit, and each variable is a parameter of a function around it, `rename`
-- ends, and each variable of the result is bound by the parameter at the place of the one that bound it.
pub rename-nameless :
    (root : Ast.Exp)
    → in_scope [] root ≡ true
    → has_plain_params root ≡ true
    → (e : Ast.Exp) × (rename root ≡ some (renamed e)) × (nameless [] e ≡ nameless [] root)
rename-nameless root scoped plain =
    let (e, p, _) = rename-renamed root scoped in
    let r = rename_from empty root 0 in
    let kept = rename_from-Keeps root empty [] [] 0 (λ z. tt) (λ x k le q. refl) plain in
    (
      e,
      p,
      Keeps-renamed (nameless [] root) r e kept
          (some-injective _ _ (sym (rename-eq-rename_from root) ∙ p)),
    )
