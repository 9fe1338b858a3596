-- ===== src/Destructor/Complete.antt =====
-- src/ast.cpp and src/anf.cpp: the destructors free each node below theirs once.
use mathlib.Core.List.{Perm, perm_append_comm}
use mathlib.Core.List.Perm
use lambcalc_cpp.Base.{
  ℕ, zero, suc, ◌+◌, ◌*◌, ◌≤◌, ◌≡◌, refl, ◌∙◌, sym, ap, Option, none, some, List, [], ◌∷◌, ◌++◌,
  append-nil, append_assoc, length, length-append, arith,
}
use lambcalc_cpp.Ast
use lambcalc_cpp.Anf
use lambcalc_cpp.Destructor.{
  tasks, moved, run, destroy, ast_children, anf_children, ast_below, anf_below, destroy_ast,
  destroy_anf,
}

module _ {E : Type 0} (children below : E → List E) where
  -- The nodes of the tasks, and those below them.
  abbrev nodes : List (Option E) → List E
  nodes [] = []
  nodes (none ∷ q) = nodes q
  nodes (some e ∷ q) = e ∷ (below e ++ nodes q)

  -- The rounds of the loop.
  abbrev rounds : List (Option E) → ℕ
  rounds [] = 0
  rounds (none ∷ q) = suc (rounds q)
  rounds (some e ∷ q) = 1 + 2 * length (below e) + rounds q

  nodes-append : (q r : List (Option E)) → nodes (q ++ r) ≡ nodes q ++ nodes r
  nodes-append [] r = refl
  nodes-append (none ∷ q) r = nodes-append q r
  nodes-append (some e ∷ q) r =
      ap (λ t. e ∷ (below e ++ t)) (nodes-append q r)
      ∙ ap (λ t. e ∷ t) (sym (append_assoc (below e) (nodes q) (nodes r)))

  rounds-append : (q r : List (Option E)) → rounds (q ++ r) ≡ rounds q + rounds r
  rounds-append [] r = omega arith
  rounds-append (none ∷ q) r = omega (arith, rounds-append q r)
  rounds-append (some e ∷ q) r = omega (arith, rounds-append q r)

  -- What the rounds for the children come to.
  rounds-tasks : (es : List E) → rounds (tasks es) + length es ≤ 2 * length (nodes (tasks es))
  rounds-tasks [] = omega arith
  rounds-tasks (e ∷ es) = omega (arith, rounds-tasks es, length-append (below e) (nodes (tasks es)))

  length-le-nodes : (es : List E) → length es ≤ length (nodes (tasks es))
  length-le-nodes [] = omega arith
  length-le-nodes (e ∷ es) =
      omega (arith, length-le-nodes es, length-append (below e) (nodes (tasks es)))

  -- Null pointers are passed over.
  run-moved : (f : ℕ) (es : List E) → length es ≤ f → run children f (moved es) ≡ some []
  unfolding run
  run-moved zero [] h = refl
  run-moved (suc f) [] h = refl
  run-moved zero (e ∷ es) h = absurd (omega arith)
  run-moved (suc f) (e ∷ es) h = run-moved f es (omega arith)

  module _ (below_lem : (e : E) → below e ≡ nodes (tasks (children e))) where
    run-Perm :
        (f : ℕ) (q : List (Option E))
        → rounds q ≤ f
        → (freed : List E) × (run children f q ≡ some freed) × Perm freed (nodes q)
    unfolding run
    run-Perm zero [] h = ([], refl, Perm.rfl)
    run-Perm (suc f) [] h = ([], refl, Perm.rfl)
    run-Perm zero (none ∷ q) h = absurd (omega arith)
    run-Perm zero (some e ∷ q) h = absurd (omega arith)
    run-Perm (suc f) (none ∷ q) h = run-Perm f q (omega arith)
    run-Perm (suc f) (some e ∷ q) h =
        let es = children e in
        let b : length (below e) ≡ length (nodes (tasks es)) = ap length (below_lem e) in
        let (rest, p, perm) =
          run-Perm f (q ++ tasks es)
            (omega (arith, h, b, rounds-append q (tasks es), rounds-tasks es)) in
        let inner = run-moved f es (omega (arith, h, b, length-le-nodes es)) in
        let all : nodes (q ++ tasks es) ≡ nodes q ++ below e =
          nodes-append q (tasks es) ∙ ap (λ t. nodes q ++ t) (sym (below_lem e)) in
        (
          e ∷ rest,
          rw (p, inner),
          Perm.cons e (Perm.trans (rw all at perm) (perm_append_comm (nodes q) (below e))),
        )

    destroy-Perm :
        (e : E)
        → (freed : List E) × (destroy children (2 * length (below e)) e ≡ some freed)
          × Perm freed (below e)
    unfolding destroy
    destroy-Perm e =
        let b : length (below e) ≡ length (nodes (tasks (children e))) = ap length (below_lem e) in
        let (freed, p, perm) =
          run-Perm (2 * length (below e)) (tasks (children e))
            (omega (arith, b, rounds-tasks (children e))) in
        let cast : (v : List E) → Perm v (nodes (tasks (children e))) → Perm v (below e) =
          λ v p. rw (below_lem e) p in
        (freed, p, cast freed perm)

ast_below_lem : (e : Ast.Exp) → ast_below e ≡ nodes ast_children ast_below (tasks (ast_children e))
ast_below_lem (Ast.int_exp i) = refl
ast_below_lem (Ast.var_exp x) = refl
ast_below_lem (Ast.lam_exp x body) = ap (λ t. body ∷ t) (sym (append-nil (ast_below body)))
ast_below_lem (Ast.app_exp fn arg) =
    ap (λ t. fn ∷ (ast_below fn ++ arg ∷ t)) (sym (append-nil (ast_below arg)))
ast_below_lem (Ast.bop_exp bop a b) =
    ap (λ t. a ∷ (ast_below a ++ b ∷ t)) (sym (append-nil (ast_below b)))
ast_below_lem (Ast.if_exp c t e) =
    ap (λ u. c ∷ (ast_below c ++ t ∷ (ast_below t ++ e ∷ u))) (sym (append-nil (ast_below e)))

anf_below_lem : (e : Anf.Exp) → anf_below e ≡ nodes anf_children anf_below (tasks (anf_children e))
anf_below_lem (Anf.halt_exp v) = refl
anf_below_lem (Anf.fun_exp f ps body rest) =
    ap (λ t. body ∷ (anf_below body ++ rest ∷ t)) (sym (append-nil (anf_below rest)))
anf_below_lem (Anf.join_exp j slot body rest) =
    ap (λ t. body ∷ (anf_below body ++ rest ∷ t)) (sym (append-nil (anf_below rest)))
anf_below_lem (Anf.jump_exp j v) = refl
anf_below_lem (Anf.app_exp x f vs rest) = ap (λ t. rest ∷ t) (sym (append-nil (anf_below rest)))
anf_below_lem (Anf.bop_exp x bop u v rest) = ap (λ t. rest ∷ t) (sym (append-nil (anf_below rest)))
anf_below_lem (Anf.if_exp c t e) =
    ap (λ u. t ∷ (anf_below t ++ e ∷ u)) (sym (append-nil (anf_below e)))
anf_below_lem (Anf.tuple_exp x vs rest) = ap (λ t. rest ∷ t) (sym (append-nil (anf_below rest)))
anf_below_lem (Anf.proj_exp x t i rest) = ap (λ t. rest ∷ t) (sym (append-nil (anf_below rest)))

-- The destructor of a syntax tree ends within its bound, and what it frees is a permutation of the nodes
-- below its own: each is freed once, and none is left.
pub destroy_ast-Perm :
    (e : Ast.Exp) → (freed : List Ast.Exp) × (destroy_ast e ≡ some freed) × Perm freed (ast_below e)
destroy_ast-Perm e = destroy-Perm ast_children ast_below ast_below_lem e

-- The destructor of a tree in A-normal form ends within its bound, and what it frees is a permutation of
-- the nodes below its own: each is freed once, and none is left.
pub destroy_anf-Perm :
    (e : Anf.Exp) → (freed : List Anf.Exp) × (destroy_anf e ≡ some freed) × Perm freed (anf_below e)
destroy_anf-Perm e = destroy-Perm anf_children anf_below anf_below_lem e
