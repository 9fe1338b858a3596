-- ===== src/Closure/Conversion/Steps.antt =====
-- src/convert.cpp: what the loop of `closureConvert` does at each kind of expression.
use lambcalc_cpp.Base.{
  ℕ, suc, ◌+◌, ◌≡◌, refl, ◌∙◌, sym, ap, Option, some, List, [], ◌∷◌, ◌++◌, Str, bytes, numbered,
}
use lambcalc_cpp.Ast.{Bop}
use lambcalc_cpp.Anf
use lambcalc_cpp.Anf.{Var, Value, var_value, glob_value}
use lambcalc_cpp.Anf.Links.{
  Link, first, second, get, set, set-get, get-set, set-set, set-append, get-append,
}
use lambcalc_cpp.Closure.Conversion.{
  Task, node, call_closure, State, visit, rebuild, perform, run, after,
}

abbrev pub state : Anf.Exp → ℕ → List Task → State
state root n w = record { root = root; counter = n; worklist = w }

-- In `r f` rounds more than `f` the loop replaces the expression behind a link by what `c` makes
-- of it, and goes on with the tasks below.
abbrev pub Converts : Anf.Exp → (ℕ → ℕ) → (ℕ → Anf.Exp × ℕ) → Type 0
Converts e r c =
    (p : Link) (root : Anf.Exp) (n : ℕ) (w : List Task) (f : ℕ)
    → get p root ≡ some e
    → run (suc (r f)) (state root n (node p ∷ w)) ≡ run f (state (set p (c n).0 root) (c n).1 w)

pub run-node :
    (e : Anf.Exp) (p : Link) (root : Anf.Exp) (n : ℕ) (w : List Task) (f : ℕ)
    → get p root ≡ some e
    → run (suc f) (state root n (node p ∷ w)) ≡ after (run f) (visit p e (state root n w))
unfolding run perform
run-node e p root n w f h = rw h

run-call :
    (e : Anf.Exp) (p : Link) (root : Anf.Exp) (n : ℕ) (x : Str) (vs : List Value) (w : List Task)
    (f : ℕ)
    → get p root ≡ some e
    → run (suc f) (state root n (call_closure p x vs ∷ w))
      ≡ after (run f) (rebuild p x vs e (state root n w))
unfolding run perform
run-call e p root n x vs w f h = rw h

module _ {part : Anf.Exp} (r : ℕ → ℕ) (c : ℕ → Anf.Exp × ℕ) (h : Converts part r c) where
  -- A part of the expression behind a link is converted in its place.
  Converts-part :
      (e : Anf.Exp) (p q : Link) (root : Anf.Exp) (n : ℕ) (w : List Task) (f : ℕ)
      → get p root ≡ some e
      → get q e ≡ some part
      → run (suc (r f)) (state root n (node (p ++ q) ∷ w))
        ≡ run f (state (set p (set q (c n).0 e) root) (c n).1 w)
  Converts-part e p q root n w f hp hq =
      h (p ++ q) root n w f (get-append p q root hp ∙ hq)
      ∙ ap (λ t. run f (state t (c n).1 w)) (set-append _ p q root hp)

  pub Converts-proj :
      (x t : Var) (i : ℕ)
      → Converts
          (Anf.proj_exp x t i part)
          (λ f. suc (r f))
          (λ n. (Anf.proj_exp x t i (c n).0, (c n).1))
  unfolding visit get set
  Converts-proj x t i p root n w f hp =
      run-node _ p root n w _ hp ∙ Converts-part _ p (second ∷ []) root n w f hp refl

  pub Converts-tuple :
      (x : Var) (vs : List Value)
      → Converts
          (Anf.tuple_exp x vs part)
          (λ f. suc (r f))
          (λ n. (Anf.tuple_exp x vs (c n).0, (c n).1))
  unfolding visit get set
  Converts-tuple x vs p root n w f hp =
      run-node _ p root n w _ hp ∙ Converts-part _ p (second ∷ []) root n w f hp refl

  pub Converts-bop :
      (x : Var) (bop : Bop) (u v : Value)
      → Converts
          (Anf.bop_exp x bop u v part)
          (λ f. suc (r f))
          (λ n. (Anf.bop_exp x bop u v (c n).0, (c n).1))
  unfolding visit get set
  Converts-bop x bop u v p root n w f hp =
      run-node _ p root n w _ hp ∙ Converts-part _ p (second ∷ []) root n w f hp refl

  -- The call: its tail is converted before the call itself is rebuilt.
  pub Converts-app :
      (x g : Var) (vs : List Value)
      → Converts
          (Anf.app_exp x g vs part)
          (λ f. suc (r (suc f)))
          (λ n.
            let y = numbered (bytes "proj") n in
            (Anf.proj_exp y g 0 (Anf.app_exp x y (var_value g ∷ vs) (c (n + 1)).0), (c (n + 1)).1))
  unfolding visit rebuild get set
  Converts-app x g vs p root n w f hp =
      let e1 = Anf.app_exp x g [] part in
      let r1 = set p e1 root in
      let h1 = get-set e1 p root hp in
      let e2 = Anf.app_exp x g [] (c (n + 1)).0 in
      let h2 = get-set e2 p r1 h1 in
      run-node _ p root n w _ hp
      ∙ Converts-part e1 p (second ∷ []) r1 (n + 1) _ _ h1 refl
      ∙ run-call e2 p (set p e2 r1) _ _ _ w f h2
      ∙ ap (λ t. run f (state t (c (n + 1)).1 w)) (set-set _ e2 p r1 h1 ∙ set-set _ e1 p root hp)

pub Converts-leaf :
    (e : Anf.Exp)
    → ((p : Link) (s : State) → visit p e s ≡ some s)
    → Converts e (λ f. f) (λ n. (e, n))
Converts-leaf e v p root n w f h =
    run-node e p root n w f h
    ∙ ap (after (run f)) (v p _)
    ∙ ap (λ t. run f (state t n w)) (sym (set-get p root h))

-- Two parts, of which the second is converted first.
module _ {a b : Anf.Exp} (ra rb : ℕ → ℕ) (ca cb : ℕ → Anf.Exp × ℕ) (ha : Converts a ra ca)
    (hb : Converts b rb cb) where
  pub Converts-parts :
      (e : Anf.Exp → Anf.Exp → Anf.Exp)
      → ((x y : Anf.Exp) → get (first ∷ []) (e x y) ≡ some x)
      → ((x y : Anf.Exp) → get (second ∷ []) (e x y) ≡ some y)
      → ((x y z : Anf.Exp) → set (first ∷ []) z (e x y) ≡ e z y)
      → ((x y z : Anf.Exp) → set (second ∷ []) z (e x y) ≡ e x z)
      → (p : Link) (root : Anf.Exp) (n : ℕ) (w : List Task) (f : ℕ) → get p root ≡ some (e a b)
      → run
          (suc (rb (suc (ra f))))
          (state root n (node (p ++ second ∷ []) ∷ node (p ++ first ∷ []) ∷ w))
        ≡ run f (state (set p (e (ca (cb n).1).0 (cb n).0) root) (ca (cb n).1).1 w)
  Converts-parts e g1 g2 s1 s2 p root n w f hp =
      let (b', n₁) = cb n in
      let (a', n₂) = ca n₁ in
      let e1 = e a b' in
      let r1 = set p e1 root in
      Converts-part rb cb hb (e a b) p (second ∷ []) root n _ _ hp (g2 a b)
      ∙ ap (λ t. run (suc (ra f)) (state (set p t root) n₁ (node (p ++ first ∷ []) ∷ w)))
          (s2 a b b')
      ∙ Converts-part ra ca ha e1 p (first ∷ []) r1 n₁ w f (get-set e1 p root hp) (g1 a b')
      ∙ ap (λ t. run f (state t n₂ w)) (ap (λ t. set p t r1) (s1 a b' a') ∙ set-set _ e1 p root hp)

  pub Converts-join :
      (x : Var) (slot : Option Var)
      → Converts
          (Anf.join_exp x slot a b)
          (λ f. suc (rb (suc (ra f))))
          (λ n. (Anf.join_exp x slot (ca (cb n).1).0 (cb n).0, (ca (cb n).1).1))
  unfolding visit get set
  Converts-join x slot p root n w f hp =
      run-node _ p root n w _ hp
      ∙ Converts-parts (Anf.join_exp x slot) (λ _ _. refl) (λ _ _. refl) (λ _ _ _. refl)
          (λ _ _ _. refl) p root n w f hp

  pub Converts-if :
      (v : Value)
      → Converts
          (Anf.if_exp v a b)
          (λ f. suc (rb (suc (ra f))))
          (λ n. (Anf.if_exp v (ca (cb n).1).0 (cb n).0, (ca (cb n).1).1))
  unfolding visit get set
  Converts-if v p root n w f hp =
      run-node _ p root n w _ hp
      ∙ Converts-parts (Anf.if_exp v) (λ _ _. refl) (λ _ _. refl) (λ _ _ _. refl) (λ _ _ _. refl) p
          root n w f hp
