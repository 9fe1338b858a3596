-- ===== src/Hoist/Correct.antt =====
-- src/hoist.cpp: the loop of `hoist` does what the recursion does.
use lambcalc_cpp.Base.{ℕ, suc, ◌≡◌, refl, ◌∙◌, sym, ap, Option, some, List, [], ◌∷◌, ◌++◌}
use lambcalc_cpp.Anf
use lambcalc_cpp.Anf.{Var, Value}
use lambcalc_cpp.Anf.Links.{
  Link, first, second, get, set, set-get, get-set, set-set, set-append, get-append,
}
use lambcalc_cpp.Hoist.{
  Join, Task, node, splice, collect_function, collect_join, collect_branches, State, visit,
  add_function, add_join, add_branches, perform, run, after, start, main_fun, rounds, hoist,
}
use lambcalc_cpp.Hoist.Recursive.{
  Parts, with_function, with_join, with_branches, branch, hoist_from, nothing, functions_of,
}

abbrev state : Anf.Exp → Parts → List Task → State
state root s w = record {
  root = root;
  counter = s.counter;
  current_joins = s.joins;
  collected = s.functions;
  worklist = w;
}

-- In `r f` rounds more than `f` the loop replaces the expression behind a link by what is left of
-- it, moves its parts out, and goes on with the tasks below.
abbrev Hoists : Anf.Exp → (ℕ → ℕ) → (Parts → Anf.Exp × Parts) → Type 0
Hoists e r c =
    (p : Link) (root : Anf.Exp) (s : Parts) (w : List Task) (f : ℕ)
    → get p root ≡ some e
    → run (suc (r f)) (state root s (node p ∷ w)) ≡ run f (state (set p (c s).0 root) (c s).1 w)

run-node :
    (e : Anf.Exp) (p : Link) (root : Anf.Exp) (s : Parts) (w : List Task) (f : ℕ)
    → get p root ≡ some e
    → run (suc f) (state root s (node p ∷ w)) ≡ run f (visit p e (state root s w))
unfolding run perform
run-node e p root s w f h = rw h

run-splice :
    (rest : Anf.Exp) (p : Link) (root : Anf.Exp) (s : Parts) (w : List Task) (f : ℕ)
    → get (p ++ second ∷ []) root ≡ some rest
    → run (suc f) (state root s (splice p ∷ w)) ≡ run f (state (set p rest root) s w)
unfolding run perform
run-splice rest p root s w f h = rw h

run-function :
    (e : Anf.Exp) (p : Link) (root : Anf.Exp) (s : Parts) (js : List Join) (w : List Task) (f : ℕ)
    → get p root ≡ some e
    → run (suc f) (state root s (collect_function p js ∷ w))
      ≡ after (run f) (add_function js e (state root s w))
unfolding run perform
run-function e p root s js w f h = rw h

run-join :
    (e : Anf.Exp) (p : Link) (root : Anf.Exp) (s : Parts) (w : List Task) (f : ℕ)
    → get p root ≡ some e
    → run (suc f) (state root s (collect_join p ∷ w)) ≡ after (run f) (add_join e (state root s w))
unfolding run perform
run-join e p root s w f h = rw h

run-branches :
    (e : Anf.Exp) (p : Link) (root : Anf.Exp) (s : Parts) (w : List Task) (f : ℕ)
    → get p root ≡ some e
    → run (suc f) (state root s (collect_branches p ∷ w))
      ≡ after (run f) (add_branches p e (state root s w))
unfolding run perform
run-branches e p root s w f h = rw h

Hoists-leaf :
    (e : Anf.Exp) → ((p : Link) (s : State) → visit p e s ≡ s) → Hoists e (λ f. f) (λ s. (e, s))
Hoists-leaf e v p root s w f h =
    run-node e p root s w f h
    ∙ ap (run f) (v p _)
    ∙ ap (λ t. run f (state t s w)) (sym (set-get p root h))

module _ {part : Anf.Exp} (r : ℕ → ℕ) (c : Parts → Anf.Exp × Parts) (h : Hoists part r c) where
  -- A part of the expression behind a link is hoisted in its place.
  Hoists-part :
      (e : Anf.Exp) (p q : Link) (root : Anf.Exp) (s : Parts) (w : List Task) (f : ℕ)
      → get p root ≡ some e
      → get q e ≡ some part
      → run (suc (r f)) (state root s (node (p ++ q) ∷ w))
        ≡ run f (state (set p (set q (c s).0 e) root) (c s).1 w)
  Hoists-part e p q root s w f hp hq =
      h (p ++ q) root s w f (get-append p q root hp ∙ hq)
      ∙ ap (λ t. run f (state t (c s).1 w)) (set-append _ p q root hp)

  -- An expression that only has a `rest`.
  Hoists-rest :
      (build : Anf.Exp → Anf.Exp)
      → ((p : Link) (root : Anf.Exp) (s : Parts) (w : List Task)
          → visit p (build part) (state root s w) ≡ state root s (node (p ++ second ∷ []) ∷ w))
      → get (second ∷ []) (build part) ≡ some part
      → ((x : Anf.Exp) → set (second ∷ []) x (build part) ≡ build x)
      → Hoists (build part) (λ f. suc (r f)) (λ s. (build (c s).0, (c s).1))
  Hoists-rest build v hq hs p root s w f hp =
      run-node (build part) p root s w (suc (r f)) hp
      ∙ ap (run (suc (r f))) (v p root s w)
      ∙ Hoists-part (build part) p (second ∷ []) root s w f hp hq
      ∙ ap (λ t. run f (state (set p t root) (c s).1 w)) (hs (c s).0)

module _ {a b : Anf.Exp} (ra rb : ℕ → ℕ) (ca cb : Parts → Anf.Exp × Parts) (ha : Hoists a ra ca)
    (hb : Hoists b rb cb) where
  -- The end of a definition: its `rest` is hoisted, and takes its place.
  Hoists-end :
      (e : Anf.Exp → Anf.Exp)
      → get (second ∷ []) (e b) ≡ some b
      → ((x : Anf.Exp) → set (second ∷ []) x (e b) ≡ e x)
      → ((x : Anf.Exp) → get (second ∷ []) (e x) ≡ some x)
      → (p : Link) (root : Anf.Exp) (s : Parts) (w : List Task) (f : ℕ) → get p root ≡ some (e b)
      → run (suc (rb (suc f))) (state root s (node (p ++ second ∷ []) ∷ splice p ∷ w))
        ≡ run f (state (set p (cb s).0 root) (cb s).1 w)
  Hoists-end e hq hs hg p root s w f hp =
      let (b', s₁) = cb s in
      let root1 = set p (e b') root in
      Hoists-part rb cb hb (e b) p (second ∷ []) root s (splice p ∷ w) (suc f) hp hq
      ∙ ap (λ t. run (suc f) (state (set p t root) s₁ (splice p ∷ w))) (hs b')
      ∙ run-splice b' p root1 s₁ w f
          (get-append p (second ∷ []) root1 (get-set (e b') p root hp) ∙ hg b')
      ∙ ap (λ t. run f (state t s₁ w)) (set-set b' (e b') p root hp)

  Hoists-fun :
      (x : Var) (ps : List Var)
      → Hoists
          (Anf.fun_exp x ps a b)
          (λ f. suc (ra (suc (suc (rb (suc f))))))
          (λ s.
            let (a', s₁) = ca (record s { joins = [] }) in cb (with_function x ps a' s.joins s₁))
  unfolding visit add_function get set
  Hoists-fun x ps p root s w f hp =
      let (a', s₁) = ca (record s { joins = [] }) in
      let e1 = Anf.fun_exp x ps a' b in
      let root1 = set p e1 root in
      let h1 = get-set e1 p root hp in
      let s₂ = with_function x ps a' s.joins s₁ in
      let w1 = node (p ++ second ∷ []) ∷ splice p ∷ w in
      run-node _ p root s w (suc (ra (suc (suc (rb (suc f)))))) hp
      ∙ Hoists-part ra ca ha (Anf.fun_exp x ps a b) p (first ∷ []) root (record s { joins = [] })
          (collect_function p s.joins ∷ w1) (suc (suc (rb (suc f)))) hp refl
      ∙ run-function e1 p root1 s₁ s.joins w1 (suc (rb (suc f))) h1
      ∙ Hoists-end (Anf.fun_exp x ps a') refl (λ y. refl) (λ y. refl) p root1 s₂ w f h1
      ∙ ap (λ t. run f (state t (cb s₂).1 w)) (set-set _ e1 p root hp)

  Hoists-join :
      (x : Var) (slot : Option Var)
      → Hoists
          (Anf.join_exp x slot a b)
          (λ f. suc (ra (suc (suc (rb (suc f))))))
          (λ s. let (a', s₁) = ca s in cb (with_join x slot a' s₁))
  unfolding visit add_join get set
  Hoists-join x slot p root s w f hp =
      let (a', s₁) = ca s in
      let e1 = Anf.join_exp x slot a' b in
      let root1 = set p e1 root in
      let h1 = get-set e1 p root hp in
      let s₂ = with_join x slot a' s₁ in
      let w1 = node (p ++ second ∷ []) ∷ splice p ∷ w in
      run-node _ p root s w (suc (ra (suc (suc (rb (suc f)))))) hp
      ∙ Hoists-part ra ca ha (Anf.join_exp x slot a b) p (first ∷ []) root s (collect_join p ∷ w1)
          (suc (suc (rb (suc f)))) hp refl
      ∙ run-join e1 p root1 s₁ w1 (suc (rb (suc f))) h1
      ∙ Hoists-end (Anf.join_exp x slot a') refl (λ y. refl) (λ y. refl) p root1 s₂ w f h1
      ∙ ap (λ t. run f (state t (cb s₂).1 w)) (set-set _ e1 p root hp)

  Hoists-if :
      (v : Value)
      → Hoists
          (Anf.if_exp v a b)
          (λ f. suc (ra (suc (rb (suc f)))))
          (λ s.
            let (a', s₁) = ca s in let (b', s₂) = cb s₁ in (branch v s₂, with_branches a' b' s₂))
  unfolding visit add_branches get set
  Hoists-if v p root s w f hp =
      let (a', s₁) = ca s in
      let (b', s₂) = cb s₁ in
      let e1 = Anf.if_exp v a' b in
      let root1 = set p e1 root in
      let h1 = get-set e1 p root hp in
      let e2 = Anf.if_exp v a' b' in
      let root2 = set p e2 root1 in
      let h2 = get-set e2 p root1 h1 in
      let w1 = node (p ++ second ∷ []) ∷ collect_branches p ∷ w in
      run-node _ p root s w (suc (ra (suc (rb (suc f))))) hp
      ∙ Hoists-part ra ca ha (Anf.if_exp v a b) p (first ∷ []) root s w1 (suc (rb (suc f))) hp refl
      ∙ Hoists-part rb cb hb e1 p (second ∷ []) root1 s₁ (collect_branches p ∷ w) (suc f) h1 refl
      ∙ run-branches e2 p root2 s₂ w f h2
      ∙ ap (λ t. run f (state t (with_branches a' b' s₂) w))
          (set-set (branch v s₂) e2 p root1 h1 ∙ set-set (branch v s₂) e1 p root hp)

hoist_from-Hoists : (e : Anf.Exp) → Hoists e (rounds e) (hoist_from e)
unfolding hoist_from visit get set
hoist_from-Hoists (Anf.fun_exp x ps body rest) =
    Hoists-fun (rounds body) (rounds rest) (hoist_from body) (hoist_from rest)
      (hoist_from-Hoists body) (hoist_from-Hoists rest) x ps
hoist_from-Hoists (Anf.join_exp x slot body rest) =
    Hoists-join (rounds body) (rounds rest) (hoist_from body) (hoist_from rest)
      (hoist_from-Hoists body) (hoist_from-Hoists rest) x slot
hoist_from-Hoists (Anf.if_exp v t e) =
    Hoists-if (rounds t) (rounds e) (hoist_from t) (hoist_from e) (hoist_from-Hoists t)
      (hoist_from-Hoists e) v
hoist_from-Hoists (Anf.bop_exp x bop u v rest) =
    Hoists-rest (rounds rest) (hoist_from rest) (hoist_from-Hoists rest) (Anf.bop_exp x bop u v)
      (λ p root s w. refl) refl (λ y. refl)
hoist_from-Hoists (Anf.app_exp x g vs rest) =
    Hoists-rest (rounds rest) (hoist_from rest) (hoist_from-Hoists rest) (Anf.app_exp x g vs)
      (λ p root s w. refl) refl (λ y. refl)
hoist_from-Hoists (Anf.tuple_exp x vs rest) =
    Hoists-rest (rounds rest) (hoist_from rest) (hoist_from-Hoists rest) (Anf.tuple_exp x vs)
      (λ p root s w. refl) refl (λ y. refl)
hoist_from-Hoists (Anf.proj_exp x t i rest) =
    Hoists-rest (rounds rest) (hoist_from rest) (hoist_from-Hoists rest) (Anf.proj_exp x t i)
      (λ p root s w. refl) refl (λ y. refl)
hoist_from-Hoists (Anf.halt_exp v) = Hoists-leaf _ (λ p s. refl)
hoist_from-Hoists (Anf.jump_exp j v) = Hoists-leaf _ (λ p s. refl)

run-empty : (root : Anf.Exp) (s : Parts) → run 0 (state root s []) ≡ some s.functions
unfolding run
run-empty root s = refl

-- The loop of `hoist` ends within its bound for every expression, follows no broken link, and
-- returns the functions that the recursion collects.
pub hoist-eq-functions_of : (exp : Anf.Exp) → hoist exp ≡ some (functions_of exp)
unfolding hoist start get set
hoist-eq-functions_of exp =
    hoist_from-Hoists (main_fun exp) [] (main_fun exp) nothing [] 0 refl
    ∙ run-empty (hoist_from (main_fun exp) nothing).0 (hoist_from (main_fun exp) nothing).1
