-- ===== src/Rename/Preserves.antt =====
-- src/rename.cpp: what expressions that are the same without names evaluate to.
use mathlib.Core.Option.{some-injective}
use lambcalc_cpp.Base.{
  ℕ, ◌≡◌, refl, sym, inl, inr, Bool-cases, Option, none, some, List, [], ◌∷◌, Str, ℤ, str_eq,
}
use lambcalc_cpp.Ast
use lambcalc_cpp.Ast.{Bop}
use lambcalc_cpp.Ast.Semantics.{
  Value, Env, int, closure, empty, bind, find, Evaluates, int_exp, var_exp, lam_exp, app_exp,
  bop_exp, if_then, if_else,
}
use lambcalc_cpp.Rename.Binding.{index, next_index, nameless}

mutual
  -- An integer and itself, and functions that are the same without names.
  pub data Same : Value → Value → Type 0 where
    ints : (i : ℤ) → Same (int i) (int i)
    closures :
        {x y : Str} {body body' : Ast.Exp} {ρ ρ' : Env} (xs ys : List Str)
        → nameless (x ∷ xs) body ≡ nameless (y ∷ ys) body'
        → AreSame xs ys ρ ρ'
        → Same (closure x body ρ) (closure y body' ρ')

  -- Environments of these variables, of the same values in the same places.
  pub data AreSame : List Str → List Str → Env → Env → Type 0 where
    empties : AreSame [] [] empty empty
    binds :
        {x y : Str} {xs ys : List Str} {v v' : Value} {ρ ρ' : Env}
        → Same v v'
        → AreSame xs ys ρ ρ'
        → AreSame (x ∷ xs) (y ∷ ys) (bind x v ρ) (bind y v' ρ')

next_index-injective : (o p : Option ℕ) → next_index o ≡ next_index p → o ≡ p
next_index-injective none none h = refl
next_index-injective none (some j) h = absurd (cc)
next_index-injective (some i) none h = absurd (cc)
next_index-injective (some i) (some j) h = cc

zero-next_index : (o : Option ℕ) → next_index o ≡ some 0 → ⊥
zero-next_index none h = absurd (cc)
zero-next_index (some i) h = absurd (cc)

-- Variables in the same place have the same value.
find-Same :
    (xs ys : List Str) (ρ ρ' : Env) (x y : Str) (v : Value)
    → AreSame xs ys ρ ρ'
    → index xs x ≡ index ys y
    → find ρ x ≡ some v
    → (v' : Value) × (find ρ' y ≡ some v') × Same v v'
find-Same _ _ _ _ x y v empties p h = absurd (cc)
find-Same _ _ _ _ x y v
      (binds {x = a} {y = b} {xs = xs} {ys = ys} {v = w} {v' = w'} {ρ = ρ} {ρ' = ρ'} s ss) p h =
    elim (Bool-cases (str_eq x a)) [
      | inl e ↦ elim (Bool-cases (str_eq y b)) [
        | inl e' ↦ let q = some-injective _ _ (rw e at h) in (w', (rw (e')), (rw (sym q) s))
        | inr e' ↦ let p' = rw (e, e') at p in absurd (zero-next_index (index ys y) (sym p'))
      ]
      | inr e ↦ elim (Bool-cases (str_eq y b)) [
        | inl e' ↦ let p' = rw (e, e') at p in absurd (zero-next_index (index xs x) p')
        | inr e' ↦
            let p' = next_index-injective (index xs x) (index ys y) (rw (e, e') at p) in
            let h' = rw e at h in
            let (v', q, t) = find-Same xs ys ρ ρ' x y v ss p' h' in (v', (rw (e') q), t)
      ]
    ]

-- Of an integer, the integer is the same; of a function, a function is.
pub Same-int : (i : ℤ) (v : Value) → Same (int i) v → v ≡ int i
Same-int i _ (ints _) = refl

module _ (op : Bop → ℤ → ℤ → ℤ) where
  -- The expression evaluates to the same value.
  abbrev EvaluatesTo : Env → Ast.Exp → Value → Type 0
  EvaluatesTo ρ e v = (v' : Value) × Evaluates op ρ e v' × Same v v'

  EvaluatesTo-app :
      (ρ : Env) (x : Str) (fn arg body : Ast.Exp) (ρ₁ : Env) (u v : Value)
      → EvaluatesTo ρ fn (closure x body ρ₁)
      → EvaluatesTo ρ arg u
      → ((xs ys : List Str) (y : Str) (body' : Ast.Exp) (ρ₁' : Env)
          → AreSame (x ∷ xs) (y ∷ ys) (bind x u ρ₁) ρ₁'
          → nameless (x ∷ xs) body ≡ nameless (y ∷ ys) body'
          → EvaluatesTo ρ₁' body' v)
      → EvaluatesTo ρ (Ast.app_exp fn arg) v
  EvaluatesTo-app ρ x fn arg body ρ₁ u v
        (_, hf, closures {y = y} {body' = body'} {ρ' = ρ₁'} xs ys same ss) (u', ha, su) run =
      let (v', hb, s) = run xs ys y body' (bind y u' ρ₁') (binds su ss) same in
      (v', app_exp hf ha hb, s)

  pub Same-Evaluates :
      (xs ys : List Str) (ρ ρ' : Env) (e e' : Ast.Exp) (v : Value)
      → Evaluates op ρ e v
      → AreSame xs ys ρ ρ'
      → nameless xs e ≡ nameless ys e'
      → EvaluatesTo ρ' e' v
  Same-Evaluates xs ys ρ ρ' _ (Ast.int_exp j) _ (int_exp i) ss p =
      let q : i ≡ j = cc in (int j, int_exp j, rw (q) (ints j))
  Same-Evaluates xs ys ρ ρ' _ (Ast.var_exp y) v (var_exp x h) ss p =
      let q : index xs x ≡ index ys y = cc in
      let (v', h', s) = find-Same xs ys ρ ρ' x y v ss q h in (v', var_exp y h', s)
  Same-Evaluates xs ys ρ ρ' _ (Ast.lam_exp y body') _ (lam_exp x body) ss p =
      let q : nameless (x ∷ xs) body ≡ nameless (y ∷ ys) body' = cc in
      (closure y body' ρ', lam_exp y body', closures xs ys q ss)
  Same-Evaluates xs ys ρ ρ' _ (Ast.app_exp fn' arg') v
        (app_exp {ρ' = ρ₁} {x = x} {fn = fn} {arg = arg} {body = body} {u = u} hf ha hb) ss p =
      let qf : nameless xs fn ≡ nameless ys fn' = cc in
      let qa : nameless xs arg ≡ nameless ys arg' = cc in
      EvaluatesTo-app ρ' x fn' arg' body ρ₁ u v
        (Same-Evaluates xs ys ρ ρ' fn fn' (closure x body ρ₁) hf ss qf)
        (Same-Evaluates xs ys ρ ρ' arg arg' u ha ss qa)
        λ zs zs' y body' ρ₁' ss' q.
          Same-Evaluates (x ∷ zs) (y ∷ zs') (bind x u ρ₁) ρ₁' body body' v hb ss' q
  Same-Evaluates xs ys ρ ρ' _ (Ast.bop_exp bop' a' b') _
        (bop_exp {bop = bop} {a = a} {b = b} {i = i} {j = j} ha hb) ss p =
      let qa : nameless xs a ≡ nameless ys a' = cc in
      let qb : nameless xs b ≡ nameless ys b' = cc in
      let qop : bop ≡ bop' = cc in
      let (va, ha', sa) = Same-Evaluates xs ys ρ ρ' a a' (int i) ha ss qa in
      let (vb, hb', sb) = Same-Evaluates xs ys ρ ρ' b b' (int j) hb ss qb in
      (
        int (op bop' i j),
        bop_exp (rw (Same-int i va sa) at ha') (rw (Same-int j vb sb) at hb'),
        rw (qop) (ints (op bop' i j)),
      )
  Same-Evaluates xs ys ρ ρ' _ (Ast.if_exp c' t' e') v (if_then {c = c} {t = t} {i = i} hc z ht) ss
        p =
      let qc : nameless xs c ≡ nameless ys c' = cc in
      let qt : nameless xs t ≡ nameless ys t' = cc in
      let (vc, hc', sc) = Same-Evaluates xs ys ρ ρ' c c' (int i) hc ss qc in
      let (v', ht', s) = Same-Evaluates xs ys ρ ρ' t t' v ht ss qt in
      (v', if_then (rw (Same-int i vc sc) at hc') z ht', s)
  Same-Evaluates xs ys ρ ρ' _ (Ast.if_exp c' t' e') v (if_else {c = c} {e = e} {i = i} hc z he) ss
        p =
      let qc : nameless xs c ≡ nameless ys c' = cc in
      let qe : nameless xs e ≡ nameless ys e' = cc in
      let (vc, hc', sc) = Same-Evaluates xs ys ρ ρ' c c' (int i) hc ss qc in
      let (v', he', s) = Same-Evaluates xs ys ρ ρ' e e' v he ss qe in
      (v', if_else (rw (Same-int i vc sc) at hc') z he', s)
  Same-Evaluates xs ys ρ ρ' _ e' v (int_exp i) ss p = absurd (cc)
  Same-Evaluates xs ys ρ ρ' _ e' v (var_exp x h) ss p = absurd (cc)
  Same-Evaluates xs ys ρ ρ' _ e' v (lam_exp x body) ss p = absurd (cc)
  Same-Evaluates xs ys ρ ρ' _ e' v (app_exp hf ha hb) ss p = absurd (cc)
  Same-Evaluates xs ys ρ ρ' _ e' v (bop_exp ha hb) ss p = absurd (cc)
  Same-Evaluates xs ys ρ ρ' _ e' v (if_then hc z ht) ss p = absurd (cc)
  Same-Evaluates xs ys ρ ρ' _ e' v (if_else hc z he) ss p = absurd (cc)
