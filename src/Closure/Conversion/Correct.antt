-- ===== src/Closure/Conversion/Correct.antt =====
-- src/convert.cpp: the loop of `closureConvert` does what the recursion does.
use lambcalc_cpp.Base.{
  ℕ, zero, suc, ◌+◌, ◌≡◌, refl, ◌∙◌, ap, some, List, [], ◌∷◌, ◌++◌, map, bytes, numbered,
}
use lambcalc_cpp.Anf
use lambcalc_cpp.Anf.{Var, Value, var_value, glob_value}
use lambcalc_cpp.Anf.Links.{Link, first, second, get, set, get-set, set-set}
use lambcalc_cpp.Closure.FreeVars.Recursive.{free_vars-eq-collect}
use lambcalc_cpp.Closure.Conversion.{
  node, State, visit, run, after, start, closure_convert, closure_fun, projections,
}
use lambcalc_cpp.Closure.Conversion.Recursive.{captured, converted, rounds, projection_rounds}
use lambcalc_cpp.Closure.Conversion.Steps.{
  state, Converts, run-node, Converts-leaf, Converts-proj, Converts-tuple, Converts-bop,
  Converts-app, Converts-parts, Converts-join, Converts-if,
}

-- The projections in front of a body are passed over.
Converts-projections :
    (xs : List Var) (t : Var) (i : ℕ) {body : Anf.Exp} (r : ℕ → ℕ) (c : ℕ → Anf.Exp × ℕ)
    → Converts body r c
    → Converts
        (projections xs t i body)
        (λ f. projection_rounds xs (r f))
        (λ n. (projections xs t i (c n).0, (c n).1))
Converts-projections [] t i r c h = h
Converts-projections (x ∷ xs) t i r c h =
    Converts-projections xs t (i + 1) (λ f. suc (r f)) (λ n. (Anf.proj_exp x t i (c n).0, (c n).1))
      (Converts-proj r c h x t i)

visit-fun :
    (x : Var) (ps : List Var) (body rest : Anf.Exp) (p : Link) (s : State)
    → visit p (Anf.fun_exp x ps body rest) s
      ≡ some (record {
        root =
            set p
              (closure_fun
                (captured x ps body rest)
                (numbered (bytes "closure") s.counter)
                x
                ps
                body
                rest)
              s.root;
        counter = s.counter + 1;
        worklist = node (p ++ second ∷ []) ∷ node (p ++ first ∷ []) ∷ s.worklist;
      })
unfolding visit
visit-fun x ps body rest p s = rw (free_vars-eq-collect (Anf.fun_exp x ps body rest))

run-empty : (fuel : ℕ) (root : Anf.Exp) (n : ℕ) → run fuel (state root n []) ≡ some root
unfolding run
run-empty zero root n = refl
run-empty (suc fuel) root n = refl

Converts-fun :
    (x : Var) (ps : List Var) {body rest : Anf.Exp} (ra rb : ℕ → ℕ) (ca cb : ℕ → Anf.Exp × ℕ)
    → Converts body ra ca
    → Converts rest rb cb
    → Converts
        (Anf.fun_exp x ps body rest)
        (λ f. suc (suc (rb (suc (projection_rounds (captured x ps body rest) (ra f))))))
        (λ n.
          let (rest', n₁) = cb (n + 1) in
          let (body', n₂) = ca n₁ in
          (
            closure_fun (captured x ps body rest) (numbered (bytes "closure") n) x ps body' rest',
            n₂,
          ))
unfolding visit get set
Converts-fun x ps {body} {rest} ra rb ca cb ha hb p root n w f hp =
    let xs = captured x ps body rest in
    let t = numbered (bytes "closure") n in
    let e1 = closure_fun xs t x ps body rest in
    let r1 = set p e1 root in
    let vs = glob_value x ∷ map var_value xs in
    run-node _ p root n w _ hp
    ∙ ap (after (run _)) (visit-fun x ps body rest p (state root n w))
    ∙ Converts-parts (λ f. projection_rounds xs (ra f)) (λ f. suc (rb f))
        (λ n. (projections xs t 1 (ca n).0, (ca n).1))
        (λ n. (Anf.tuple_exp x vs (cb n).0, (cb n).1)) (Converts-projections xs t 1 ra ca ha)
        (Converts-tuple rb cb hb x vs) (Anf.fun_exp x (t ∷ ps)) (λ _ _. refl) (λ _ _. refl)
        (λ _ _ _. refl) (λ _ _ _. refl) p r1 (n + 1) w f (get-set e1 p root hp)
    ∙ ap (λ t. run f (state t (ca (cb (n + 1)).1).1 w)) (set-set _ e1 p root hp)

converted-Converts : (e : Anf.Exp) → Converts e (rounds e) (converted e)
unfolding converted visit
converted-Converts (Anf.fun_exp x ps body rest) =
    Converts-fun x ps (rounds body) (rounds rest) (converted body) (converted rest)
      (converted-Converts body) (converted-Converts rest)
converted-Converts (Anf.app_exp x g vs rest) =
    Converts-app (rounds rest) (converted rest) (converted-Converts rest) x g vs
converted-Converts (Anf.join_exp x slot body rest) =
    Converts-join (rounds body) (rounds rest) (converted body) (converted rest)
      (converted-Converts body) (converted-Converts rest) x slot
converted-Converts (Anf.if_exp v t e) =
    Converts-if (rounds t) (rounds e) (converted t) (converted e) (converted-Converts t)
      (converted-Converts e) v
converted-Converts (Anf.bop_exp x bop u v rest) =
    Converts-bop (rounds rest) (converted rest) (converted-Converts rest) x bop u v
converted-Converts (Anf.tuple_exp x vs rest) =
    Converts-tuple (rounds rest) (converted rest) (converted-Converts rest) x vs
converted-Converts (Anf.proj_exp x t i rest) =
    Converts-proj (rounds rest) (converted rest) (converted-Converts rest) x t i
converted-Converts (Anf.halt_exp v) = Converts-leaf _ (λ p s. refl)
converted-Converts (Anf.jump_exp j v) = Converts-leaf _ (λ p s. refl)

-- With at least `rounds root 0 + 1` rounds the loop of `closureConvert` ends, follows no broken
-- link, and leaves the tree that the recursion builds.
pub closure_convert-eq-converted :
    (root : Anf.Exp) (spare : ℕ)
    → closure_convert (suc (rounds root spare)) root ≡ some (converted root 0).0
unfolding closure_convert start get set
closure_convert-eq-converted root spare =
    converted-Converts root [] root 0 [] spare refl ∙ run-empty spare _ _
