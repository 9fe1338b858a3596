-- ===== src/Anf/Preserves/Values.antt =====
-- src/anf.cpp: the values of an expression and of what it is converted to, and the environments.
use lambcalc_cpp.Base.{
  ℕ, ◌+◌, ◌≤◌, ◌≡◌, refl, ◌∙◌, sym, inl, inr, Bool-cases, true, false, some, List, [], ◌∷◌, Str,
  str_eq, str_eq_iff, ℤ, arith, if◌then◌else◌,
}
use mathlib.Core.Option.{some-injective}
use lambcalc_cpp.Ast
use lambcalc_cpp.Ast.Semantics as Source
use lambcalc_cpp.Anf
use lambcalc_cpp.Anf.{int_value, var_value, glob_value}
use lambcalc_cpp.Anf.Monad.{fresh_name, done, pure}
use lambcalc_cpp.Anf.Convert.{convert_cont, Cont}
use lambcalc_cpp.Anf.Names.{IsOwn, IsNamed, fresh_name-injective}
use lambcalc_cpp.Anf.Semantics.{Value, Env, int, closure, bind, find, value_of}
use lambcalc_cpp.VarSet.{contains}

abbrev pub halt : Cont
halt v = pure (Anf.halt_exp v)

abbrev pub AreOwn : List Str → Type 0
AreOwn xs = (x : Str) → contains xs x ≡ true → IsOwn x

-- An integer and itself; a function and what its body is converted to, in environments that agree on the
-- variables around it.
pub data Related : Source.Value → Value → Type 0 where
  ints : (i : ℤ) → Related (Source.int i) (int i)
  closures :
      {x : Str} {body : Ast.Exp} {ρ : Source.Env} {body' : Anf.Exp} {σ : Env}
      → (xs : List Str) (n m : ℕ) → convert_cont body halt n ≡ done body' m
      → IsNamed (x ∷ xs) body
      → IsOwn x
      → AreOwn xs
      → (f : Str → Value)
      → ((y : Str) (v : Source.Value)
          → contains xs y ≡ true
          → Source.find ρ y ≡ some v
          → find σ y ≡ some (f y))
      → ((y : Str) (v : Source.Value)
          → contains xs y ≡ true
          → Source.find ρ y ≡ some v
          → Related v (f y))
      → Related (Source.closure x body ρ) (closure (x ∷ []) body' σ)

-- The environments agree on the variables.
pub record Agree (xs : List Str) (ρ : Source.Env) (σ : Env) : Type 0 where
  pub value : Str → Value
  pub found :
      (y : Str) (v : Source.Value)
      → contains xs y ≡ true
      → Source.find ρ y ≡ some v
      → find σ y ≡ some (value y)
  pub related :
      (y : Str) (v : Source.Value)
      → contains xs y ≡ true
      → Source.find ρ y ≡ some v
      → Related v (value y)

-- The name is not made at the counter or later.
abbrev pub IsPastName : ℕ → Str → Type 0
IsPastName n y = (j : ℕ) → n ≤ j → str_eq y (fresh_name j) ≡ false

abbrev pub IsPast : ℕ → Anf.Value → Type 0
IsPast n (int_value i) = Unit
IsPast n (var_value y) = IsPastName n y
IsPast n (glob_value y) = IsPastName n y

-- Only names that are made at the counter or later have changed.
abbrev pub Extends : ℕ → Env → Env → Type 0
Extends n σ σ' = (y : Str) → IsPastName n y → find σ' y ≡ find σ y

pub Extends-bind :
    (n m : ℕ) (σ σ' : Env) (w : Value)
    → n ≤ m
    → Extends n σ σ'
    → Extends n σ (bind (fresh_name m) w σ')
Extends-bind n m σ σ' w le h y past = rw (past m le) (h y past)

pub Extends-trans :
    (n m : ℕ) (σ σ' σ'' : Env) → n ≤ m → Extends n σ σ' → Extends m σ' σ'' → Extends n σ σ''
Extends-trans n m σ σ' σ'' le h k y past = k y (λ j l. past j (omega arith)) ∙ h y past

pub fresh_name-past : (n m : ℕ) → n + 1 ≤ m → IsPastName m (fresh_name n)
fresh_name-past n m le j l = elim (Bool-cases (str_eq (fresh_name n) (fresh_name j))) [
  | inl e ↦ let q = fresh_name-injective n j e in absurd (omega arith)
  | inr e ↦ e
]

pub value_of-Extends :
    (n : ℕ) (σ σ' : Env) (u : Anf.Value)
    → Extends n σ σ'
    → IsPast n u
    → value_of σ' u ≡ value_of σ u
value_of-Extends n σ σ' (int_value i) h p = refl
value_of-Extends n σ σ' (var_value y) h p = h y p
value_of-Extends n σ σ' (glob_value y) h p = h y p

pub Agree-Extends :
    (xs : List Str) (ρ : Source.Env) (n : ℕ) (σ σ' : Env)
    → AreOwn xs
    → Extends n σ σ'
    → Agree xs ρ σ
    → Agree xs ρ σ'
Agree-Extends xs ρ n σ σ' own h a = record {
  value = a.value;
  found = λ y v c p. h y (λ j l. own y c j) ∙ a.found y v c p;
  related = a.related;
}

pub Agree-bind :
    (xs : List Str) (ρ : Source.Env) (σ : Env) (x : Str) (u : Source.Value) (w : Value)
    → Agree xs ρ σ
    → Related u w
    → Agree (x ∷ xs) (Source.bind x u ρ) (bind x w σ)
unfolding contains
Agree-bind xs ρ σ x u w a r = record {
  value = λ y. if str_eq y x then w else a.value y;
  found = λ y v c p. elim (Bool-cases (str_eq y x)) [
    | inl e ↦ rw (e)
    | inr e ↦ let c' = rw e at c in let p' = rw e at p in rw (e) (a.found y v c' p')
  ];
  related = λ y v c p. elim (Bool-cases (str_eq y x)) [
    | inl e ↦ let p' = some-injective _ _ (rw e at p) in rw (e, sym p') r
    | inr e ↦ let c' = rw e at c in let p' = rw e at p in rw (e) (a.related y v c' p')
  ];
}

pub AreOwn-cons : (xs : List Str) (x : Str) → IsOwn x → AreOwn xs → AreOwn (x ∷ xs)
unfolding contains
AreOwn-cons xs x own h y c = elim (Bool-cases (str_eq y x)) [
  | inl e ↦ let q = (str_eq_iff y x).0 e in rw (q) own
  | inr e ↦ h y (rw e at c)
]

-- What is related to an integer is the integer.
pub Related-int :
    (σ : Env) (u : Anf.Value) (i : ℤ) (w : Value)
    → value_of σ u ≡ some w
    → Related (Source.int i) w
    → value_of σ u ≡ some (int i)
Related-int σ u i _ q (ints _) = q
