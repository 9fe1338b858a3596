-- ===== src/Destructor.antt =====
-- include/visitor.h, `DestructorTask`, and the destructors of src/ast.cpp and src/anf.cpp: a node owns its
-- children, which the visit of the node moves into tasks of a `std::queue`.
pub mod Complete
use lambcalc_cpp.Base.{ℕ, zero, suc, ◌*◌, Option, none, some, List, [], ◌∷◌, ◌++◌, map, length}
use lambcalc_cpp.Ast
use lambcalc_cpp.Anf

module _ {E : Type 0} where
  infixl 1 ◌>>=◌
  abbrev ◌>>=◌ : Option (List E) → (List E → Option (List E)) → Option (List E)
  none >>= f = none
  some freed >>= f = f freed

  -- The tasks that a visit pushes, and those once the children have been moved away.
  abbrev pub tasks : List E → List (Option E)
  tasks children = map some children

  abbrev pub moved : List E → List (Option E)
  moved children = map (λ _. none) children

  module _ (children : E → List E) where
    -- `while (!queue.empty())`, for at most `fuel` rounds: the nodes that are freed, one after the other.
    -- A task that was popped goes out of scope in the end, where its node is destroyed in turn: nothing
    -- is left in it to be pushed but null pointers.
    unfoldable pub run : ℕ → List (Option E) → Option (List E)
    run zero [] = some []
    run zero (t ∷ queue) = none
    run (suc fuel) [] = some []
    run (suc fuel) (none ∷ queue) = run fuel queue
    run (suc fuel) (some e ∷ queue) = run fuel (queue ++ tasks (children e)) >>= λ rest.
        run fuel (moved (children e)) >>= λ inner. some (e ∷ (inner ++ rest))

    -- `~Exp()`.
    unfoldable pub destroy : ℕ → E → Option (List E)
    unfolding run
    destroy fuel e = run fuel (tasks (children e))

-- The order in which `operator()` of the worklist visitors pushes.
abbrev pub ast_children : Ast.Exp → List Ast.Exp
ast_children (Ast.int_exp value) = []
ast_children (Ast.var_exp name) = []
ast_children (Ast.lam_exp param body) = body ∷ []
ast_children (Ast.app_exp fn arg) = fn ∷ arg ∷ []
ast_children (Ast.bop_exp bop arg1 arg2) = arg1 ∷ arg2 ∷ []
ast_children (Ast.if_exp cond then_branch else_branch) = cond ∷ then_branch ∷ else_branch ∷ []

abbrev pub anf_children : Anf.Exp → List Anf.Exp
anf_children (Anf.halt_exp value) = []
anf_children (Anf.fun_exp name params body rest) = body ∷ rest ∷ []
anf_children (Anf.join_exp name slot body rest) = body ∷ rest ∷ []
anf_children (Anf.jump_exp join_name slot_value) = []
anf_children (Anf.app_exp name fun_name param_values rest) = rest ∷ []
anf_children (Anf.bop_exp name bop param1 param2 rest) = rest ∷ []
anf_children (Anf.if_exp cond then_branch else_branch) = then_branch ∷ else_branch ∷ []
anf_children (Anf.tuple_exp name values rest) = rest ∷ []
anf_children (Anf.proj_exp name tuple index rest) = rest ∷ []

-- The nodes below a node, each before those below it.
abbrev pub ast_below : Ast.Exp → List Ast.Exp
ast_below (Ast.int_exp value) = []
ast_below (Ast.var_exp name) = []
ast_below (Ast.lam_exp param body) = body ∷ ast_below body
ast_below (Ast.app_exp fn arg) = fn ∷ (ast_below fn ++ arg ∷ ast_below arg)
ast_below (Ast.bop_exp bop arg1 arg2) = arg1 ∷ (ast_below arg1 ++ arg2 ∷ ast_below arg2)
ast_below (Ast.if_exp c t e) = c ∷ (ast_below c ++ t ∷ (ast_below t ++ e ∷ ast_below e))

abbrev pub anf_below : Anf.Exp → List Anf.Exp
anf_below (Anf.halt_exp value) = []
anf_below (Anf.fun_exp name params body rest) = body ∷ (anf_below body ++ rest ∷ anf_below rest)
anf_below (Anf.join_exp name slot body rest) = body ∷ (anf_below body ++ rest ∷ anf_below rest)
anf_below (Anf.jump_exp join_name slot_value) = []
anf_below (Anf.app_exp name fun_name param_values rest) = rest ∷ anf_below rest
anf_below (Anf.bop_exp name bop param1 param2 rest) = rest ∷ anf_below rest
anf_below (Anf.if_exp cond t e) = t ∷ (anf_below t ++ e ∷ anf_below e)
anf_below (Anf.tuple_exp name values rest) = rest ∷ anf_below rest
anf_below (Anf.proj_exp name tuple index rest) = rest ∷ anf_below rest

-- `ast::Exp::~Exp()` and `anf::Exp::~Exp()`.
abbrev pub destroy_ast : Ast.Exp → Option (List Ast.Exp)
destroy_ast e = destroy ast_children (2 * length (ast_below e)) e

abbrev pub destroy_anf : Anf.Exp → Option (List Anf.Exp)
destroy_anf e = destroy anf_children (2 * length (anf_below e)) e
