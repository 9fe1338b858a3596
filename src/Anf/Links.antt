-- ===== src/Anf/Links.antt =====
-- The links of a tree, `std::unique_ptr<Exp> *`: a pointer to the place that owns a subtree is the
-- way from the root to it. The passes of src/convert.cpp and src/hoist.cpp keep such pointers on
-- their worklists and write through them.
use lambcalc_cpp.Base.{◌≡◌, refl, Option, none, some, List, ◌++◌}
use lambcalc_cpp.Links
use lambcalc_cpp.Links.{Tree}
use lambcalc_cpp.Anf

-- `first` is `body` or `thenBranch`; `second` is `rest` or `elseBranch`.
pub data Child : Type 0 where
  first second : Child

abbrev pub Link : Type 0
Link = List Child

unfoldable pub child : Child → Anf.Exp → Option Anf.Exp
child first (Anf.fun_exp name params body rest) = some body
child first (Anf.join_exp name slot body rest) = some body
child first (Anf.if_exp cond then_branch else_branch) = some then_branch
child second (Anf.fun_exp name params body rest) = some rest
child second (Anf.join_exp name slot body rest) = some rest
child second (Anf.app_exp name fun_name param_values rest) = some rest
child second (Anf.bop_exp name bop param1 param2 rest) = some rest
child second (Anf.if_exp cond then_branch else_branch) = some else_branch
child second (Anf.tuple_exp name values rest) = some rest
child second (Anf.proj_exp name tuple index rest) = some rest
child _ _ = none

unfoldable pub set_child : Child → Anf.Exp → Anf.Exp → Anf.Exp
set_child first x (Anf.fun_exp name params body rest) = Anf.fun_exp name params x rest
set_child first x (Anf.join_exp name slot body rest) = Anf.join_exp name slot x rest
set_child first x (Anf.if_exp cond then_branch else_branch) = Anf.if_exp cond x else_branch
set_child second x (Anf.fun_exp name params body rest) = Anf.fun_exp name params body x
set_child second x (Anf.join_exp name slot body rest) = Anf.join_exp name slot body x
set_child second x (Anf.app_exp name fun_name param_values rest) =
    Anf.app_exp name fun_name param_values x
set_child second x (Anf.bop_exp name bop param1 param2 rest) = Anf.bop_exp name bop param1 param2 x
set_child second x (Anf.if_exp cond then_branch else_branch) = Anf.if_exp cond then_branch x
set_child second x (Anf.tuple_exp name values rest) = Anf.tuple_exp name values x
set_child second x (Anf.proj_exp name tuple index rest) = Anf.proj_exp name tuple index x
set_child _ x e = e

pub child-set_child :
    (d : Child) (x : Anf.Exp) {c : Anf.Exp} (e : Anf.Exp)
    → child d e ≡ some c
    → child d (set_child d x e) ≡ some x
unfolding child set_child
child-set_child first x (Anf.fun_exp name params body rest) h = refl
child-set_child first x (Anf.join_exp name params body rest) h = refl
child-set_child first x (Anf.if_exp c t f) h = refl
child-set_child second x (Anf.halt_exp v) h = cc
child-set_child second x (Anf.jump_exp v s) h = cc
child-set_child second x _ h = refl
child-set_child first x _ h = cc

pub set_child-set_child :
    (d : Child) (x y e : Anf.Exp) → set_child d x (set_child d y e) ≡ set_child d x e
unfolding set_child
set_child-set_child first x y (Anf.fun_exp name params body rest) = refl
set_child-set_child first x y _ = refl
set_child-set_child second x y (Anf.fun_exp name params body rest) = refl
set_child-set_child second x y _ = refl

pub set_child-child :
    (d : Child) {c : Anf.Exp} (e : Anf.Exp) → child d e ≡ some c → set_child d c e ≡ e
unfolding child set_child
set_child-child first (Anf.fun_exp name params body rest) h = cc
set_child-child first _ h = cc
set_child-child second (Anf.fun_exp name params body rest) h = cc
set_child-child second _ h = cc

-- The tree of include/anf.h.
abbrev pub tree : Tree
tree = record {
  Node = Anf.Exp;
  Child = Child;
  child = child;
  set_child = set_child;
  child-set_child = child-set_child;
  set_child-set_child = set_child-set_child;
  set_child-child = set_child-child;
}

unfoldable pub get : Link → Anf.Exp → Option Anf.Exp
unfolding child Links.get
get = Links.get tree

unfoldable pub set : Link → Anf.Exp → Anf.Exp → Anf.Exp
unfolding child set_child Links.set
set = Links.set tree

-- The laws of links, of this tree.
pub get-set :
    (x : Anf.Exp) (p : Link) {r : Anf.Exp} (e : Anf.Exp)
    → get p e ≡ some r
    → get p (set p x e) ≡ some x
unfolding get set
get-set = Links.get-set tree

pub set-get : (p : Link) {r : Anf.Exp} (e : Anf.Exp) → get p e ≡ some r → set p r e ≡ e
unfolding get set
set-get = Links.set-get tree

pub set-set :
    (x y : Anf.Exp) (p : Link) {r : Anf.Exp} (e : Anf.Exp)
    → get p e ≡ some r
    → set p x (set p y e) ≡ set p x e
unfolding get set
set-set = Links.set-set tree

pub set-append :
    (x : Anf.Exp) (p q : Link) {r : Anf.Exp} (e : Anf.Exp)
    → get p e ≡ some r
    → set (p ++ q) x e ≡ set p (set q x r) e
unfolding get set
set-append = Links.set-append tree

pub get-append :
    (p q : Link) {r : Anf.Exp} (e : Anf.Exp) → get p e ≡ some r → get (p ++ q) e ≡ get q r
unfolding get
get-append = Links.get-append tree
