-- ===== src/Rename/Correct.antt =====
-- src/rename.cpp: the loop of `rename` does what the recursion does.
use lambcalc_cpp.Base.{
  ℕ, ℤ, suc, ◌+◌, ◌≡◌, refl, ◌∙◌, sym, ap, fun_ext, Bool, true, false, Option, none, some, List, [],
  ◌∷◌, ◌++◌, Str, str_eq, str_eq_iff, numbered,
}
use lambcalc_cpp.Ast
use lambcalc_cpp.Ast.Links.{
  Child, Link, first, second, third, get, set, get-set, set-get, set-set, set-append, get-append,
}
use lambcalc_cpp.Rename.{
  Renaming, assign, empty, Task, node, restore, State, Renamed, renamed, not_in_scope, visit,
  visit_var, run, after, start, rename, rounds,
}
use lambcalc_cpp.Rename.Recursive.{Result, ok, unbound, bind, var_result, rename_from}

-- Undoing an assignment.
assign_undo : (x : Str) (y : Option Str) (ρ : Renaming) → assign x (ρ x) (assign x y ρ) ≡ ρ
assign_undo x y ρ = fun_ext λ z. go z (str_eq z x) refl
  where
    go : (z : Str) (b : Bool) → str_eq z x ≡ b → assign x (ρ x) (assign x y ρ) z ≡ ρ z
    go z true e = rw (e) (ap ρ (sym ((str_eq_iff z x).0 e)))
    go z false e = rw (e)

abbrev state : Ast.Exp → ℕ → Renaming → List Task → State
state root n ρ w = record { root = root; counter = n; rename = ρ; worklist = w }

-- What the loop does once the expression behind `p` has been renamed with this result.
abbrev goes_on : Link → Ast.Exp → Renaming → List Task → ℕ → Result Ast.Exp → Option Renamed
goes_on p root ρ w f (ok e n) = run f (state (set p e root) n ρ w)
goes_on p root ρ w f (unbound x) = some (not_in_scope x)

-- In `r f` rounds more than `f` the loop renames the expression behind a link in its place, gives the
-- map its old content, and goes on with the tasks below; or it throws.
abbrev Renames : Ast.Exp → (ℕ → ℕ) → Type 0
Renames e r =
    (p : Link) (root : Ast.Exp) (n : ℕ) (ρ : Renaming) (w : List Task) (f : ℕ)
    → get p root ≡ some e
    → run (suc (r f)) (state root n ρ (node p ∷ w)) ≡ goes_on p root ρ w f (rename_from ρ e n)

run-node :
    (e : Ast.Exp) (p : Link) (root : Ast.Exp) (n : ℕ) (ρ : Renaming) (w : List Task) (f : ℕ)
    → get p root ≡ some e
    → run (suc f) (state root n ρ (node p ∷ w)) ≡ after (run f) (visit p e (state root n ρ w))
unfolding run
run-node e p root n ρ w f h = rw h

goes_on-set :
    (p : Link) (root y : Ast.Exp) {e : Ast.Exp} (ρ : Renaming) (w : List Task) (f : ℕ)
    (res : Result Ast.Exp)
    → get p root ≡ some e
    → goes_on p (set p y root) ρ w f res ≡ goes_on p root ρ w f res
goes_on-set p root y ρ w f (ok x m) h = ap (λ t. run f (state t m ρ w)) (set-set x y p root h)
goes_on-set p root y ρ w f (unbound x) h = refl

-- A part has been renamed, and the rest of the expression remains.
goes_on-part :
    (e : Ast.Exp) (p q : Link) (root : Ast.Exp) (build : Ast.Exp → Ast.Exp) (res : Result Ast.Exp)
    (k : Ast.Exp → ℕ → Result Ast.Exp) (ρ ρ' : Renaming) (w w' : List Task) (f f' : ℕ)
    → get p root ≡ some e
    → ((x : Ast.Exp) → set q x e ≡ build x)
    → ((x : Ast.Exp) (m : ℕ)
        → run f (state (set p (build x) root) m ρ w) ≡ goes_on p root ρ' w' f' (k x m))
    → goes_on (p ++ q) root ρ w f res ≡ goes_on p root ρ' w' f' (bind res k)
goes_on-part e p q root build (unbound x) k ρ ρ' w w' f f' hp hb h = refl
goes_on-part e p q root build (ok x m) k ρ ρ' w w' f f' hp hb h =
    ap (λ t. run f (state t m ρ w)) (set-append x p q root hp ∙ ap (λ t. set p t root) (hb x))
    ∙ h x m

-- The last part, which completes the expression.
goes_on-last :
    (e : Ast.Exp) (p q : Link) (root : Ast.Exp) (build : Ast.Exp → Ast.Exp) (res : Result Ast.Exp)
    (ρ : Renaming) (w : List Task) (f : ℕ)
    → get p root ≡ some e
    → ((x : Ast.Exp) → set q x e ≡ build x)
    → goes_on (p ++ q) root ρ w f res ≡ goes_on p root ρ w f (bind res (λ x m. ok (build x) m))
goes_on-last e p q root build res ρ w f hp hb =
    goes_on-part e p q root build res (λ x m. ok (build x) m) ρ ρ w w f f hp hb (λ x m. refl)

Renames-var : (x : Str) → Renames (Ast.var_exp x) (λ f. f)
unfolding visit rename_from
Renames-var x p root n ρ w f hp = run-node _ p root n ρ w f hp ∙ go (ρ x)
  where
    go :
        (y : Option Str)
        → after (run f) (visit_var p x y (state root n ρ w))
          ≡ goes_on p root ρ w f (var_result x y n)
    go none = refl
    go (some y) = refl

Renames-lam :
    (x : Str) (body : Ast.Exp) (r : ℕ → ℕ)
    → Renames body r
    → Renames (Ast.lam_exp x body) (λ f. suc (r (suc f)))
unfolding visit rename_from run get set
Renames-lam x body r ih p root n ρ w f hp =
    let y = numbered x n in
    let e1 = Ast.lam_exp y body in
    let root1 = set p e1 root in
    let h1 = get-set e1 p root hp in
    let ρ1 = assign x (some y) ρ in
    run-node _ p root n ρ w (suc (r (suc f))) hp
    ∙ ih (p ++ first ∷ []) root1 (n + 1) ρ1 (restore x (ρ x) ∷ w) (suc f)
        (get-append p (first ∷ []) root1 h1)
    ∙ goes_on-part e1 p (first ∷ []) root1 (Ast.lam_exp y) (rename_from ρ1 body (n + 1))
        (λ b m. ok (Ast.lam_exp y b) m) ρ1 ρ (restore x (ρ x) ∷ w) w (suc f) f h1 (λ b. refl)
        (λ b m.
          ap (λ t. run f (state (set p (Ast.lam_exp y b) root1) m t w)) (assign_undo x (some y) ρ))
    ∙ goes_on-set p root e1 ρ w f _ hp

module _ (a b : Ast.Exp) (ra rb : ℕ → ℕ) (ha : Renames a ra) (hb : Renames b rb) where
  -- Two parts, of which the second is renamed first.
  Renames-parts :
      (e : Ast.Exp → Ast.Exp → Ast.Exp) (d₁ d₂ : Child)
      → ((x y : Ast.Exp) → get (d₁ ∷ []) (e x y) ≡ some x)
      → ((x y : Ast.Exp) → get (d₂ ∷ []) (e x y) ≡ some y)
      → ((x y z : Ast.Exp) → set (d₁ ∷ []) z (e x y) ≡ e z y)
      → ((x y z : Ast.Exp) → set (d₂ ∷ []) z (e x y) ≡ e x z)
      → (p : Link) (root : Ast.Exp) (n : ℕ) (ρ : Renaming) (w : List Task) (f : ℕ)
      → get p root ≡ some (e a b)
      → run (suc (rb (suc (ra f)))) (state root n ρ (node (p ++ d₂ ∷ []) ∷ node (p ++ d₁ ∷ []) ∷ w))
        ≡ goes_on p root ρ w f
            (bind (rename_from ρ b n) λ y m. bind (rename_from ρ a m) λ x m'. ok (e x y) m')
  Renames-parts e d₁ d₂ g1 g2 s1 s2 p root n ρ w f hp =
      hb (p ++ d₂ ∷ []) root n ρ _ _ (get-append p (d₂ ∷ []) root hp ∙ g2 a b)
      ∙ goes_on-part (e a b) p (d₂ ∷ []) root (e a) (rename_from ρ b n) _ ρ ρ _ w _ f hp (s2 a b)
          λ y m.
            let root1 = set p (e a y) root in
            let h1 = get-set (e a y) p root hp in
            ha (p ++ d₁ ∷ []) root1 m ρ w f (get-append p (d₁ ∷ []) root1 h1 ∙ g1 a y)
            ∙ goes_on-last (e a y) p (d₁ ∷ []) root1 (λ x. e x y) (rename_from ρ a m) ρ w f h1
                (s1 a y)
            ∙ goes_on-set p root (e a y) ρ w f _ hp

  Renames-app : Renames (Ast.app_exp a b) (λ f. suc (rb (suc (ra f))))
  unfolding visit rename_from get set
  Renames-app p root n ρ w f hp =
      run-node _ p root n ρ w (suc (rb (suc (ra f)))) hp
      ∙ Renames-parts Ast.app_exp first second (λ x y. refl) (λ x y. refl) (λ x y z. refl)
          (λ x y z. refl) p root n ρ w f hp

  Renames-bop : (o : Ast.Bop) → Renames (Ast.bop_exp o a b) (λ f. suc (rb (suc (ra f))))
  unfolding visit rename_from get set
  Renames-bop o p root n ρ w f hp =
      run-node _ p root n ρ w (suc (rb (suc (ra f)))) hp
      ∙ Renames-parts (Ast.bop_exp o) first second (λ x y. refl) (λ x y. refl) (λ x y z. refl)
          (λ x y z. refl) p root n ρ w f hp

Renames-if :
    (c t e : Ast.Exp) (rc rt re : ℕ → ℕ)
    → Renames c rc
    → Renames t rt
    → Renames e re
    → Renames (Ast.if_exp c t e) (λ f. suc (re (suc (rt (suc (rc f))))))
unfolding visit rename_from get set
Renames-if c t e rc rt re hc ht he p root n ρ w f hp =
    run-node _ p root n ρ w (suc (re (suc (rt (suc (rc f)))))) hp
    ∙ he (p ++ third ∷ []) root n ρ (node (p ++ second ∷ []) ∷ node (p ++ first ∷ []) ∷ w)
        (suc (rt (suc (rc f)))) (get-append p (third ∷ []) root hp)
    ∙ goes_on-part (Ast.if_exp c t e) p (third ∷ []) root (Ast.if_exp c t) (rename_from ρ e n) _ ρ ρ
        (node (p ++ second ∷ []) ∷ node (p ++ first ∷ []) ∷ w) w (suc (rt (suc (rc f)))) f hp
        (λ x. refl)
        λ e' m.
          let root1 = set p (Ast.if_exp c t e') root in
          let h1 = get-set (Ast.if_exp c t e') p root hp in
          Renames-parts c t rc rt hc ht (λ x y. Ast.if_exp x y e') first second (λ x y. refl)
            (λ x y. refl) (λ x y z. refl) (λ x y z. refl) p root1 m ρ w f h1
          ∙ goes_on-set p root (Ast.if_exp c t e') ρ w f _ hp

Renames-int : (i : ℤ) → Renames (Ast.int_exp i) (λ f. f)
unfolding visit rename_from
Renames-int i p root n ρ w f hp =
    run-node _ p root n ρ w f hp ∙ ap (λ t. run f (state t n ρ w)) (sym (set-get p root hp))

rename_from-Renames : (e : Ast.Exp) → Renames e (rounds e)
rename_from-Renames (Ast.int_exp i) = Renames-int i
rename_from-Renames (Ast.var_exp x) = Renames-var x
rename_from-Renames (Ast.lam_exp x body) =
    Renames-lam x body (rounds body) (rename_from-Renames body)
rename_from-Renames (Ast.app_exp a b) =
    Renames-app a b (rounds a) (rounds b) (rename_from-Renames a) (rename_from-Renames b)
rename_from-Renames (Ast.bop_exp o a b) =
    Renames-bop a b (rounds a) (rounds b) (rename_from-Renames a) (rename_from-Renames b) o
rename_from-Renames (Ast.if_exp c t e) =
    Renames-if c t e (rounds c) (rounds t) (rounds e) (rename_from-Renames c)
      (rename_from-Renames t) (rename_from-Renames e)

abbrev pub outcome : Result Ast.Exp → Renamed
outcome (ok e n) = renamed e
outcome (unbound x) = not_in_scope x

outcome-goes_on :
    (root : Ast.Exp) (res : Result Ast.Exp) → goes_on [] root empty [] 0 res ≡ some (outcome res)
unfolding run set
outcome-goes_on root (ok e n) = refl
outcome-goes_on root (unbound x) = refl

-- The loop of `rename` ends within its bound for every expression: it leaves the tree that the
-- recursion builds, or throws for the name for which the recursion stops. It never follows a link
-- that does not exist.
pub rename-eq-rename_from :
    (root : Ast.Exp) → rename root ≡ some (outcome (rename_from empty root 0))
unfolding rename start get
rename-eq-rename_from root =
    rename_from-Renames root [] root 0 empty [] 0 refl
    ∙ outcome-goes_on root (rename_from empty root 0)
