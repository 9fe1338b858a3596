-- ===== src/Rename/Recursive.antt =====
-- src/rename.cpp: the renaming as a recursion that returns the new expression and the counter, in
-- the order in which the worklist treats the tree, from right to left.
use lambcalc_cpp.Base.{ℕ, ◌+◌, Option, none, some, Str, numbered}
use lambcalc_cpp.Ast
use lambcalc_cpp.Rename.{Renaming, assign}

pub data Result {ℓ} (A : Type ℓ) : Type ℓ where
  ok : A → ℕ → Result A
  unbound : Str → Result A

abbrev pub bind {ℓ κ} : {A : Type ℓ} {B : Type κ} → Result A → (A → ℕ → Result B) → Result B
bind (ok a n) f = f a n
bind (unbound x) f = unbound x

abbrev pub var_result : Str → Option Str → ℕ → Result Ast.Exp
var_result x none n = unbound x
var_result x (some y) n = ok (Ast.var_exp y) n

unfoldable pub rename_from : Renaming → Ast.Exp → ℕ → Result Ast.Exp
rename_from ρ (Ast.int_exp i) n = ok (Ast.int_exp i) n
rename_from ρ (Ast.var_exp x) n = var_result x (ρ x) n
rename_from ρ (Ast.lam_exp x body) n =
    bind (rename_from (assign x (some (numbered x n)) ρ) body (n + 1))
      λ b m. ok (Ast.lam_exp (numbered x n) b) m
rename_from ρ (Ast.app_exp fn arg) n =
    bind (rename_from ρ arg n) λ a m. bind (rename_from ρ fn m) λ g m'. ok (Ast.app_exp g a) m'
rename_from ρ (Ast.bop_exp bop arg1 arg2) n =
    bind (rename_from ρ arg2 n)
      λ b m. bind (rename_from ρ arg1 m) λ a m'. ok (Ast.bop_exp bop a b) m'
rename_from ρ (Ast.if_exp c t e) n = bind (rename_from ρ e n) λ e' m.
    bind (rename_from ρ t m)
      λ t' m'. bind (rename_from ρ c m') λ c' m''. ok (Ast.if_exp c' t' e') m''
