-- ===== src/Rename/Scope.antt =====
-- src/rename.cpp: when the renaming succeeds, and that it changes names only.
use lambcalc_cpp.Base.{
  ℕ, ◌+◌, ◌≡◌, refl, ◌∙◌, ap, inl, inr, Bool, true, false, ◌&&◌, Option, none, some, List, [], ◌∷◌,
  Str, str_eq, numbered, Bool-cases,
}
use lambcalc_cpp.Ast
use lambcalc_cpp.VarSet.{contains}
use lambcalc_cpp.Rename.{Renaming, assign, empty, rename, renamed, not_in_scope}
use lambcalc_cpp.Rename.Recursive.{Result, ok, unbound, bind, var_result, rename_from}
use lambcalc_cpp.Rename.Correct.{outcome, rename-eq-rename_from}

-- Each variable is one of these or a parameter of a function around it.
abbrev pub in_scope : List Str → Ast.Exp → Bool
in_scope xs (Ast.int_exp i) = true
in_scope xs (Ast.var_exp x) = contains xs x
in_scope xs (Ast.lam_exp x body) = in_scope (x ∷ xs) body
in_scope xs (Ast.app_exp fn arg) = in_scope xs arg && in_scope xs fn
in_scope xs (Ast.bop_exp bop a b) = in_scope xs b && in_scope xs a
in_scope xs (Ast.if_exp c t e) = in_scope xs e && (in_scope xs t && in_scope xs c)

-- The expression without its names.
abbrev pub outline : Ast.Exp → Ast.Exp
outline (Ast.int_exp i) = Ast.int_exp i
outline (Ast.var_exp x) = Ast.var_exp []
outline (Ast.lam_exp x body) = Ast.lam_exp [] (outline body)
outline (Ast.app_exp fn arg) = Ast.app_exp (outline fn) (outline arg)
outline (Ast.bop_exp bop a b) = Ast.bop_exp bop (outline a) (outline b)
outline (Ast.if_exp c t e) = Ast.if_exp (outline c) (outline t) (outline e)

abbrev is_some : Option Str → Bool
is_some none = false
is_some (some x) = true

-- The map has entries for these names.
abbrev Defines : Renaming → List Str → Type 0
Defines ρ xs = (x : Str) → is_some (ρ x) ≡ contains xs x

Defines-assign :
    (ρ : Renaming) (xs : List Str) (x y : Str)
    → Defines ρ xs
    → Defines (assign x (some y) ρ) (x ∷ xs)
unfolding contains
Defines-assign ρ xs x y h z = elim (Bool-cases (str_eq z x)) [
  | inl e ↦ rw (e)
  | inr e ↦ rw (e) (h z)
]

-- A result that has this outline, or an error.
abbrev Fits : Ast.Exp → Bool → Result Ast.Exp → Type 0
Fits o true (ok e n) = outline e ≡ o
Fits o true (unbound x) = ⊥
Fits o false (ok e n) = ⊥
Fits o false (unbound x) = Unit

Fits-bind :
    (o o' : Ast.Exp) (b b' : Bool) (r : Result Ast.Exp) (k : Ast.Exp → ℕ → Result Ast.Exp)
    → Fits o b r
    → ((e : Ast.Exp) (n : ℕ) → outline e ≡ o → Fits o' b' (k e n))
    → Fits o' (b && b') (bind r k)
Fits-bind o o' true b' (ok e n) k h g = g e n h
Fits-bind o o' true b' (unbound x) k h g = absurd h
Fits-bind o o' false b' (ok e n) k h g = absurd h
Fits-bind o o' false b' (unbound x) k h g = tt

-- One part, of which the expression is built.
Fits-build :
    (o o' : Ast.Exp) (b : Bool) (r : Result Ast.Exp) (build : Ast.Exp → Ast.Exp)
    → Fits o b r
    → ((e : Ast.Exp) → outline e ≡ o → outline (build e) ≡ o')
    → Fits o' b (bind r (λ e n. ok (build e) n))
Fits-build o o' true (ok e n) build h g = g e h
Fits-build o o' true (unbound x) build h g = absurd h
Fits-build o o' false (ok e n) build h g = absurd h
Fits-build o o' false (unbound x) build h g = tt

rename_from-Fits :
    (e : Ast.Exp) (ρ : Renaming) (xs : List Str) (n : ℕ)
    → Defines ρ xs
    → Fits (outline e) (in_scope xs e) (rename_from ρ e n)
unfolding rename_from
rename_from-Fits (Ast.int_exp i) ρ xs n h = refl
rename_from-Fits (Ast.var_exp x) ρ xs n h = go (ρ x) (contains xs x) (h x)
  where
    go : (y : Option Str) (b : Bool) → is_some y ≡ b → Fits (Ast.var_exp []) b (var_result x y n)
    go none true e = absurd (cc)
    go none false e = tt
    go (some y) true e = refl
    go (some y) false e = absurd (cc)
rename_from-Fits (Ast.lam_exp x body) ρ xs n h =
    Fits-build (outline body) (outline (Ast.lam_exp x body)) (in_scope (x ∷ xs) body) _
      (Ast.lam_exp (numbered x n))
      (rename_from-Fits body _ (x ∷ xs) (n + 1) (Defines-assign ρ xs x (numbered x n) h))
      (λ e p. ap (Ast.lam_exp []) p)
rename_from-Fits (Ast.app_exp fn arg) ρ xs n h =
    Fits-bind (outline arg) (outline (Ast.app_exp fn arg)) (in_scope xs arg) (in_scope xs fn) _ _
      (rename_from-Fits arg ρ xs n h)
      λ a m p.
        Fits-build (outline fn) _ (in_scope xs fn) _ (λ f. Ast.app_exp f a)
          (rename_from-Fits fn ρ xs m h) (λ f q. rw (p, q))
rename_from-Fits (Ast.bop_exp bop a b) ρ xs n h =
    Fits-bind (outline b) (outline (Ast.bop_exp bop a b)) (in_scope xs b) (in_scope xs a) _ _
      (rename_from-Fits b ρ xs n h)
      λ b' m p.
        Fits-build (outline a) _ (in_scope xs a) _ (λ f. Ast.bop_exp bop f b')
          (rename_from-Fits a ρ xs m h) (λ f q. rw (p, q))
rename_from-Fits (Ast.if_exp c t e) ρ xs n h =
    let o = outline (Ast.if_exp c t e) in
    Fits-bind (outline e) o (in_scope xs e) (in_scope xs t && in_scope xs c) _ _
      (rename_from-Fits e ρ xs n h)
      λ e' m p.
        Fits-bind (outline t) o (in_scope xs t) (in_scope xs c) _ _ (rename_from-Fits t ρ xs m h)
          λ t' m' q.
            Fits-build (outline c) o (in_scope xs c) _ (λ f. Ast.if_exp f t' e')
              (rename_from-Fits c ρ xs m' h) (λ f r. rw (p, q, r))

Fits-renamed :
    (o : Ast.Exp) (r : Result Ast.Exp)
    → Fits o true r
    → (e : Ast.Exp) × (outcome r ≡ renamed e) × (outline e ≡ o)
Fits-renamed o (ok e n) h = (e, refl, h)
Fits-renamed o (unbound x) h = absurd h

Fits-not_in_scope :
    (o : Ast.Exp) (r : Result Ast.Exp) → Fits o false r → (x : Str) × (outcome r ≡ not_in_scope x)
Fits-not_in_scope o (ok e n) h = absurd h
Fits-not_in_scope o (unbound x) h = (x, refl)

rename_from-empty-Fits :
    (root : Ast.Exp) → Fits (outline root) (in_scope [] root) (rename_from empty root 0)
unfolding contains
rename_from-empty-Fits root = rename_from-Fits root empty [] 0 (λ x. refl)

-- If each variable is a parameter of a function around it, the loop of `rename` ends within its
-- bound and leaves an expression that differs from the input in its names only.
pub rename-renamed :
    (root : Ast.Exp)
    → in_scope [] root ≡ true
    → (e : Ast.Exp) × (rename root ≡ some (renamed e)) × (outline e ≡ outline root)
rename-renamed root h =
    let fits = rename_from-empty-Fits root in
    let (e, p, q) = Fits-renamed (outline root) (rename_from empty root 0) (rw h at fits) in
    (e, rename-eq-rename_from root ∙ ap some p, q)

-- If some variable is no parameter of a function around it, the loop of `rename` ends within its
-- bound by the exception that says that a name is not in scope.
pub rename-not_in_scope :
    (root : Ast.Exp) → in_scope [] root ≡ false → (x : Str) × (rename root ≡ some (not_in_scope x))
rename-not_in_scope root h =
    let fits = rename_from-empty-Fits root in
    let (x, p) = Fits-not_in_scope (outline root) (rename_from empty root 0) (rw h at fits) in
    (x, rename-eq-rename_from root ∙ ap some p)
