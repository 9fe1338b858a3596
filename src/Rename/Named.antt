-- ===== src/Rename/Named.antt =====
-- src/rename.cpp and src/anf.cpp: the parameters of a renamed expression hide none around them, and
-- none is a name that `fresh` of src/anf.cpp makes, if none was called `tmp`.
use mathlib.Core.Option.{some-injective}
use lambcalc_cpp.Base.{
  ℕ, ◌+◌, ◌≤◌, ◌≡◌, refl, ◌∙◌, sym, ap, inl, inr, Bool-cases, Bool, true, false, not, ◌&&◌, Option,
  none, some, List, [], ◌∷◌, ◌++◌, Str, bytes, str_eq, str_eq_iff, numbered, to_string, length,
  length-append, arith,
}
use lambcalc_cpp.Ast
use lambcalc_cpp.Anf.Monad.{fresh_name}
use lambcalc_cpp.Anf.Names.{IsOwn, IsNamed}
use lambcalc_cpp.VarSet.{contains}
use lambcalc_cpp.Rename.{Renaming, assign, empty, rename, renamed}
use lambcalc_cpp.Rename.Recursive.{Result, ok, unbound, bind, var_result, rename_from}
use lambcalc_cpp.Rename.Correct.{outcome, rename-eq-rename_from}
use lambcalc_cpp.Rename.Fresh.{is_plain, numbered-injective}
use lambcalc_cpp.Rename.Binding.{has_plain_params, both}

-- No parameter is called `tmp`.
abbrev pub has_own_params : Ast.Exp → Bool
has_own_params (Ast.int_exp i) = true
has_own_params (Ast.var_exp x) = true
has_own_params (Ast.lam_exp x body) = not (str_eq x (bytes "tmp")) && has_own_params body
has_own_params (Ast.app_exp fn arg) = has_own_params fn && has_own_params arg
has_own_params (Ast.bop_exp bop a b) = has_own_params a && has_own_params b
has_own_params (Ast.if_exp c t e) = has_own_params c && (has_own_params t && has_own_params e)

append-cancel : (x y d : Str) → x ++ d ≡ y ++ d → x ≡ y
append-cancel [] [] d h = refl
append-cancel [] (b ∷ y) d h =
    let n = ap length h in let m = length-append (b ∷ y) d in absurd (omega arith)
append-cancel (a ∷ x) [] d h =
    let n = ap length h in let m = length-append (a ∷ x) d in absurd (omega arith)
append-cancel (a ∷ x) (b ∷ y) d h =
    let p : x ++ d ≡ y ++ d = cc in let q : a ≡ b = cc in let r = append-cancel x y d p in cc

-- A parameter that is not called `tmp` gets a name that `fresh` of src/anf.cpp does not make.
numbered-IsOwn :
    (x : Str) (n : ℕ)
    → is_plain x ≡ true
    → not (str_eq x (bytes "tmp")) ≡ true
    → IsOwn (numbered x n)
unfolding fresh_name numbered lambcalc_cpp.Lexer.is_digit
numbered-IsOwn x n p own m = elim (Bool-cases (str_eq (numbered x n) (fresh_name m))) [
  | inl e ↦
      let q = (str_eq_iff (numbered x n) (fresh_name m)).0 e in
      let k : n ≡ m = numbered-injective x (bytes "tmp") n m p refl q in
      let r : x ++ to_string n ≡ bytes "tmp" ++ to_string n =
        q ∙ ap (λ i. bytes "tmp" ++ to_string i) (sym k) in
      let s = (str_eq_iff x (bytes "tmp")).1 (append-cancel x (bytes "tmp") (to_string n) r) in
      absurd (cc)
  | inr e ↦ e
]

-- None of the names is made at the counter or later.
abbrev ArePast : List Str → ℕ → Type 0
ArePast ys n = (x : Str) (k : ℕ) → n ≤ k → is_plain x ≡ true → contains ys (numbered x k) ≡ false

ArePast-cons :
    (ys : List Str) (x : Str) (n : ℕ)
    → is_plain x ≡ true
    → ArePast ys n
    → ArePast (numbered x n ∷ ys) (n + 1)
unfolding contains
ArePast-cons ys x n p past z k le q = elim (Bool-cases (str_eq (numbered z k) (numbered x n))) [
  | inl e ↦
      let same : k ≡ n =
        numbered-injective z x k n q p ((str_eq_iff (numbered z k) (numbered x n)).0 e) in
      absurd (omega arith)
  | inr e ↦ rw (e) (past z k (omega arith) q)
]

ArePast-later : (ys : List Str) (n m : ℕ) → n ≤ m → ArePast ys n → ArePast ys m
ArePast-later ys n m le past x k l = past x k (omega arith)

-- The variables are renamed to these names.
abbrev IsInto : Renaming → List Str → Type 0
IsInto ρ ys = (x y : Str) → ρ x ≡ some y → contains ys y ≡ true

IsInto-assign :
    (ρ : Renaming) (ys : List Str) (x y : Str) → IsInto ρ ys → IsInto (assign x (some y) ρ) (y ∷ ys)
unfolding contains
IsInto-assign ρ ys x y h z u e = elim (Bool-cases (str_eq z x)) [
  | inl q ↦ let e' = rw q at e in let r : y ≡ u = cc in let s = (str_eq_iff u y).1 (sym r) in rw (s)
  | inr q ↦ let e' = rw q at e in let s = h z u e' in rw (s) (ground arith)
]

abbrev Renames : List Str → ℕ → Result Ast.Exp → Type 0
Renames ys n (ok e m) = (n ≤ m) × IsNamed ys e
Renames ys n (unbound x) = Unit

Renames-bind :
    (ys zs : List Str) (n n' : ℕ) (r : Result Ast.Exp) (k : Ast.Exp → ℕ → Result Ast.Exp)
    → Renames ys n r
    → ((e : Ast.Exp) (m : ℕ) → n ≤ m → IsNamed ys e → Renames zs n' (k e m))
    → Renames zs n' (bind r k)
Renames-bind ys zs n n' (ok e m) k (le, h) g = g e m le h
Renames-bind ys zs n n' (unbound x) k h g = tt

rename_from-Renames :
    (e : Ast.Exp) (ρ : Renaming) (ys : List Str) (n : ℕ)
    → IsInto ρ ys
    → ArePast ys n
    → has_plain_params e ≡ true
    → has_own_params e ≡ true
    → Renames ys n (rename_from ρ e n)
unfolding rename_from
rename_from-Renames (Ast.int_exp i) ρ ys n into past p own = (omega arith, tt)
rename_from-Renames (Ast.var_exp x) ρ ys n into past p own = go (ρ x) (into x)
  where
    go :
        (o : Option Str)
        → ((y : Str) → o ≡ some y → contains ys y ≡ true)
        → Renames ys n (var_result x o n)
    go none h = tt
    go (some y) h = (omega arith, h y refl)
rename_from-Renames (Ast.lam_exp x body) ρ ys n into past p own =
    let (px, pb) = both (is_plain x) (has_plain_params body) p in
    let (ox, ob) = both (not (str_eq x (bytes "tmp"))) (has_own_params body) own in
    let y = numbered x n in
    Renames-bind (y ∷ ys) ys (n + 1) n _ _
      (rename_from-Renames body _ (y ∷ ys) (n + 1) (IsInto-assign ρ ys x y into)
        (ArePast-cons ys x n px past) pb ob)
      λ b m le named. (omega arith, (past x n (omega arith) px, numbered-IsOwn x n px ox, named))
rename_from-Renames (Ast.app_exp fn arg) ρ ys n into past p own =
    let (pf, pa) = both (has_plain_params fn) (has_plain_params arg) p in
    let (of, oa) = both (has_own_params fn) (has_own_params arg) own in
    Renames-bind ys ys n n _ _ (rename_from-Renames arg ρ ys n into past pa oa) λ a m le ha.
      Renames-bind ys ys m n _ _
        (rename_from-Renames fn ρ ys m into (ArePast-later ys n m le past) pf of)
        λ f m' le' hf. (omega arith, (hf, ha))
rename_from-Renames (Ast.bop_exp bop a b) ρ ys n into past p own =
    let (pa, pb) = both (has_plain_params a) (has_plain_params b) p in
    let (oa, ob) = both (has_own_params a) (has_own_params b) own in
    Renames-bind ys ys n n _ _ (rename_from-Renames b ρ ys n into past pb ob) λ b' m le hb.
      Renames-bind ys ys m n _ _
        (rename_from-Renames a ρ ys m into (ArePast-later ys n m le past) pa oa)
        λ a' m' le' ha. (omega arith, (ha, hb))
rename_from-Renames (Ast.if_exp c t e) ρ ys n into past p own =
    let (pc, pr) = both (has_plain_params c) (has_plain_params t && has_plain_params e) p in
    let (pt, pe) = both (has_plain_params t) (has_plain_params e) pr in
    let (oc, or) = both (has_own_params c) (has_own_params t && has_own_params e) own in
    let (ot, oe) = both (has_own_params t) (has_own_params e) or in
    Renames-bind ys ys n n _ _ (rename_from-Renames e ρ ys n into past pe oe) λ e' m le he.
      Renames-bind ys ys m n _ _
        (rename_from-Renames t ρ ys m into (ArePast-later ys n m le past) pt ot)
        λ t' m' le' ht.
          Renames-bind ys ys m' n _ _
            (rename_from-Renames c ρ ys m' into (ArePast-later ys n m' (omega arith) past) pc oc)
            λ c' m'' le'' hc. (omega arith, (hc, ht, he))

Renames-renamed :
    (r : Result Ast.Exp) (e : Ast.Exp) → Renames [] 0 r → outcome r ≡ renamed e → IsNamed [] e
Renames-renamed (ok e' n) e (le, h) p = let q : e' ≡ e = cc in rw q at h
Renames-renamed (unbound x) e h p = absurd (cc)

-- What `rename` makes of an expression no parameter of which ends in a digit or is called `tmp`.
pub rename-IsNamed :
    (root e : Ast.Exp)
    → has_plain_params root ≡ true
    → has_own_params root ≡ true
    → rename root ≡ some (renamed e)
    → IsNamed [] e
unfolding contains
rename-IsNamed root e plain own h =
    Renames-renamed (rename_from empty root 0) e
      (rename_from-Renames root empty [] 0 (λ x y q. absurd (cc)) (λ x k le p. refl) plain own)
      (some-injective _ _ (sym (rename-eq-rename_from root) ∙ h))
