-- ===== src/Anf/Names.antt =====
-- src/anf.cpp: the names of `fresh` do not hide others, and are not hidden.
pub mod Hidden
use lambcalc_cpp.Base.{
  ℕ, ◌+◌, ◌≤◌, ◌≡◌, refl, inl, inr, Bool-cases, true, false, some, List, [], ◌∷◌, Str, bytes,
  str_eq, str_eq_iff, str_eq_refl, numbered, arith,
}
use lambcalc_cpp.Ast
use lambcalc_cpp.Anf
use lambcalc_cpp.Anf.{Value, int_value, var_value, glob_value}
use lambcalc_cpp.Anf.Monad.{◌>>=◌, pure, fresh_name, Outcome, done, throws, null_pointer, M, bind}
use lambcalc_cpp.Anf.Convert.{Cont, convert_cont, convert, string_value, jump_to}
use lambcalc_cpp.Anf.Unshadowed.{IsHeld, IsNew, IsUnshadowed}
use lambcalc_cpp.Rename.Fresh.{numbered-injective}
use lambcalc_cpp.VarSet.{contains}

-- No counter makes the name.
abbrev pub IsOwn : Str → Type 0
IsOwn x = (n : ℕ) → str_eq x (fresh_name n) ≡ false

-- Each variable is one of `xs` or a parameter of a function around it, and no parameter is one of these
-- or a name of `fresh`.
abbrev pub IsNamed : List Str → Ast.Exp → Type 0
IsNamed xs (Ast.int_exp i) = Unit
IsNamed xs (Ast.var_exp x) = contains xs x ≡ true
IsNamed xs (Ast.lam_exp x body) = IsNew xs x × IsOwn x × IsNamed (x ∷ xs) body
IsNamed xs (Ast.app_exp fn arg) = IsNamed xs fn × IsNamed xs arg
IsNamed xs (Ast.bop_exp bop a b) = IsNamed xs a × IsNamed xs b
IsNamed xs (Ast.if_exp c t e) = IsNamed xs c × IsNamed xs t × IsNamed xs e

-- The names from the counter `n` on are none of `xs`.
abbrev pub IsOpen : List Str → ℕ → Type 0
IsOpen xs n = (m : ℕ) → n ≤ m → contains xs (fresh_name m) ≡ false

-- Names of `fresh` are added.
abbrev Extends : List Str → List Str → Type 0
Extends xs ys =
    ((x : Str) → contains xs x ≡ true → contains ys x ≡ true)
    × ((x : Str) → IsOwn x → contains xs x ≡ false → contains ys x ≡ false)

pub fresh_name-injective : (n m : ℕ) → str_eq (fresh_name n) (fresh_name m) ≡ true → n ≡ m
unfolding fresh_name numbered lambcalc_cpp.Lexer.is_digit
fresh_name-injective n m h =
    numbered-injective (bytes "tmp") (bytes "tmp") n m refl refl ((str_eq_iff _ _).0 h)

IsOpen-cons : (xs : List Str) (n : ℕ) → IsOpen xs n → IsOpen (fresh_name n ∷ xs) (n + 1)
unfolding contains
IsOpen-cons xs n h m le = elim (Bool-cases (str_eq (fresh_name m) (fresh_name n))) [
  | inl e ↦ let q = fresh_name-injective m n e in absurd (omega arith)
  | inr e ↦ rw (e) (h m (omega arith))
]

IsOpen-own : (xs : List Str) (x : Str) (n : ℕ) → IsOwn x → IsOpen xs n → IsOpen (x ∷ xs) n
unfolding contains
IsOpen-own xs x n own h m le = elim (Bool-cases (str_eq (fresh_name m) x)) [
  | inl e ↦
      let q = (str_eq_iff (fresh_name m) x).0 e in
      let p = own m in let r = str_eq_refl (fresh_name m) in absurd (cc)
  | inr e ↦ rw (e) (h m le)
]

IsOpen-later : (xs : List Str) (n m : ℕ) → n ≤ m → IsOpen xs n → IsOpen xs m
IsOpen-later xs n m le h k l = h k (omega arith)

Extends-cons : (xs ys : List Str) (n : ℕ) → Extends xs ys → Extends xs (fresh_name n ∷ ys)
unfolding contains
Extends-cons xs ys n (h, k) = (λ x c. ground (arith, h x), λ x own c. rw (own n) (k x own c))

Extends-under : (xs ys : List Str) (x : Str) → Extends xs ys → Extends (x ∷ xs) (x ∷ ys)
unfolding contains
Extends-under xs ys x (h, k) = (λ y c. ground (arith, h y), λ y own c. ground (arith, k y own))

Extends-refl : (xs : List Str) → Extends xs xs
Extends-refl xs = (λ x c. c, λ x own c. c)

IsNamed-extend : (e : Ast.Exp) (xs ys : List Str) → Extends xs ys → IsNamed xs e → IsNamed ys e
IsNamed-extend (Ast.int_exp i) xs ys h k = tt
IsNamed-extend (Ast.var_exp x) xs ys (h, _) k = h x k
IsNamed-extend (Ast.lam_exp x body) xs ys h (new, own, k) =
    (h.1 x own new, own, IsNamed-extend body (x ∷ xs) (x ∷ ys) (Extends-under xs ys x h) k)
IsNamed-extend (Ast.app_exp fn arg) xs ys h (f, a) =
    (IsNamed-extend fn xs ys h f, IsNamed-extend arg xs ys h a)
IsNamed-extend (Ast.bop_exp bop a b) xs ys h (p, q) =
    (IsNamed-extend a xs ys h p, IsNamed-extend b xs ys h q)
IsNamed-extend (Ast.if_exp c t e) xs ys h (p, q, r) =
    (IsNamed-extend c xs ys h p, IsNamed-extend t xs ys h q, IsNamed-extend e xs ys h r)

IsHeld-extend : (v : Value) (xs ys : List Str) → Extends xs ys → IsHeld xs v → IsHeld ys v
IsHeld-extend (int_value i) xs ys h k = tt
IsHeld-extend (var_value x) xs ys (h, _) k = h x k
IsHeld-extend (glob_value x) xs ys (h, _) k = h x k

Extends-trans : (xs ys zs : List Str) → Extends xs ys → Extends ys zs → Extends xs zs
Extends-trans xs ys zs (h, h') (k, k') = (λ x c. k x (h x c), λ x own c. k' x own (h' x own c))
