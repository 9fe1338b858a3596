-- ===== src/Ast/Semantics.antt =====
-- What expressions of include/ast.h evaluate to: functions are called by value, from left to right, with
-- the environment where they stand.
use lambcalc_cpp.Base.{
  zero, suc, ◌≡◌, Bool, true, false, Option, none, some, Str, str_eq, ℤ, pos, negsuc, if◌then◌else◌,
}
use lambcalc_cpp.Ast
use lambcalc_cpp.Ast.{Bop}

mutual
  pub data Value : Type 0 where
    int : ℤ → Value
    closure : Str → Ast.Exp → Env → Value

  pub data Env : Type 0 where
    empty : Env
    bind : Str → Value → Env → Env

abbrev pub find : Env → Str → Option Value
find empty x = none
find (bind y v ρ) x = if str_eq x y then some v else find ρ x

-- An integer that `if` takes for false.
abbrev pub is_zero : ℤ → Bool
is_zero (pos zero) = true
is_zero (pos (suc n)) = false
is_zero (negsuc n) = false

-- `op` is what the operators do on integers.
pub data Evaluates (op : Bop → ℤ → ℤ → ℤ) : Env → Ast.Exp → Value → Type 0 where
  int_exp : {ρ : Env} (i : ℤ) → Evaluates op ρ (Ast.int_exp i) (int i)
  var_exp : {ρ : Env} {v : Value} (x : Str) → find ρ x ≡ some v → Evaluates op ρ (Ast.var_exp x) v
  lam_exp :
      {ρ : Env} (x : Str) (body : Ast.Exp) → Evaluates op ρ (Ast.lam_exp x body) (closure x body ρ)
  app_exp :
      {ρ ρ' : Env} {x : Str} {fn arg body : Ast.Exp} {u v : Value}
      → Evaluates op ρ fn (closure x body ρ')
      → Evaluates op ρ arg u
      → Evaluates op (bind x u ρ') body v
      → Evaluates op ρ (Ast.app_exp fn arg) v
  bop_exp :
      {ρ : Env} {bop : Bop} {a b : Ast.Exp} {i j : ℤ}
      → Evaluates op ρ a (int i)
      → Evaluates op ρ b (int j)
      → Evaluates op ρ (Ast.bop_exp bop a b) (int (op bop i j))
  if_then :
      {ρ : Env} {c t e : Ast.Exp} {i : ℤ} {v : Value}
      → Evaluates op ρ c (int i)
      → is_zero i ≡ false
      → Evaluates op ρ t v
      → Evaluates op ρ (Ast.if_exp c t e) v
  if_else :
      {ρ : Env} {c t e : Ast.Exp} {i : ℤ} {v : Value}
      → Evaluates op ρ c (int i)
      → is_zero i ≡ true
      → Evaluates op ρ e v
      → Evaluates op ρ (Ast.if_exp c t e) v
