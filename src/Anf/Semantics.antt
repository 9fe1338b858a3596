-- ===== src/Anf/Semantics.antt =====
-- What expressions of include/anf.h, as the conversion makes them, result in: a join point is left to its
-- jumps with what is known where it stands, and a function starts with none.
use lambcalc_cpp.Base.{
  ◌≡◌, true, false, Option, none, some, List, [], ◌∷◌, Str, str_eq, ℤ, if◌then◌else◌,
}
use lambcalc_cpp.Ast.{Bop}
use lambcalc_cpp.Ast.Semantics.{is_zero}
use lambcalc_cpp.Anf
use lambcalc_cpp.Anf.{int_value, var_value, glob_value}

mutual
  pub data Value : Type 0 where
    int : ℤ → Value
    closure : List Str → Anf.Exp → Env → Value

  pub data Env : Type 0 where
    empty : Env
    bind : Str → Value → Env → Env

-- The join points around, the innermost in front.
pub data Joins : Type 0 where
  no_joins : Joins
  join : Str → Option Str → Anf.Exp → Env → Joins → Joins

abbrev pub find : Env → Str → Option Value
find empty x = none
find (bind y v σ) x = if str_eq x y then some v else find σ x

abbrev pub value_of : Env → Anf.Value → Option Value
value_of σ (int_value i) = some (int i)
value_of σ (var_value x) = find σ x
value_of σ (glob_value x) = find σ x

-- `op` is what the operators do on integers.
pub data Runs (op : Bop → ℤ → ℤ → ℤ) : Joins → Env → Anf.Exp → Value → Type 0 where
  halt_exp :
      {js : Joins} {σ : Env} {u : Anf.Value} {w : Value}
      → value_of σ u ≡ some w
      → Runs op js σ (Anf.halt_exp u) w
  fun_exp :
      {js : Joins} {σ : Env} {x : Str} {ps : List Str} {body rest : Anf.Exp} {w : Value}
      → Runs op js (bind x (closure ps body σ) σ) rest w
      → Runs op js σ (Anf.fun_exp x ps body rest) w
  app_exp :
      {js : Joins} {σ σ' : Env} {x f p : Str} {body rest : Anf.Exp} {u : Anf.Value} {a b w : Value}
      → find σ f ≡ some (closure (p ∷ []) body σ')
      → value_of σ u ≡ some a
      → Runs op no_joins (bind p a σ') body b
      → Runs op js (bind x b σ) rest w
      → Runs op js σ (Anf.app_exp x f (u ∷ []) rest) w
  bop_exp :
      {js : Joins} {σ : Env} {x : Str} {bop : Bop} {u v : Anf.Value} {i j : ℤ} {rest : Anf.Exp}
      {w : Value}
      → value_of σ u ≡ some (int i)
      → value_of σ v ≡ some (int j)
      → Runs op js (bind x (int (op bop i j)) σ) rest w
      → Runs op js σ (Anf.bop_exp x bop u v rest) w
  join_exp :
      {js : Joins} {σ : Env} {j : Str} {slot : Option Str} {body rest : Anf.Exp} {w : Value}
      → Runs op (join j slot body σ js) σ rest w
      → Runs op js σ (Anf.join_exp j slot body rest) w
  -- the innermost join point, and one further out
  jump_exp :
      {js : Joins} {σ σ' : Env} {i j x : Str} {u : Anf.Value} {body : Anf.Exp} {a w : Value}
      → str_eq j i ≡ true
      → value_of σ u ≡ some a
      → Runs op js (bind x a σ') body w
      → Runs op (join i (some x) body σ' js) σ (Anf.jump_exp j (some u)) w
  jump_out :
      {js : Joins} {σ σ' : Env} {i j : Str} {slot : Option Str} {u : Option Anf.Value}
      {body : Anf.Exp} {w : Value}
      → str_eq j i ≡ false
      → Runs op js σ (Anf.jump_exp j u) w
      → Runs op (join i slot body σ' js) σ (Anf.jump_exp j u) w
  if_then :
      {js : Joins} {σ : Env} {u : Anf.Value} {t e : Anf.Exp} {i : ℤ} {w : Value}
      → value_of σ u ≡ some (int i)
      → is_zero i ≡ false
      → Runs op js σ t w
      → Runs op js σ (Anf.if_exp u t e) w
  if_else :
      {js : Joins} {σ : Env} {u : Anf.Value} {t e : Anf.Exp} {i : ℤ} {w : Value}
      → value_of σ u ≡ some (int i)
      → is_zero i ≡ true
      → Runs op js σ e w
      → Runs op js σ (Anf.if_exp u t e) w
