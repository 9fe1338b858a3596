-- ===== src/Ast/Links.antt =====
-- Links into the tree of include/ast.h. A `Ptr` that a pass writes through is the way to it from the
-- root.
use lambcalc_cpp.Base.{◌≡◌, refl, Option, none, some, List, ◌++◌}
use lambcalc_cpp.Links
use lambcalc_cpp.Links.{Tree}
use lambcalc_cpp.Ast

-- `first` is `body`, `fn`, `arg1` or `cond`; `second` is `arg`, `arg2` or `then`; `third` is `els`.
pub data Child : Type 0 where
  first second third : Child

abbrev pub Link : Type 0
Link = List Child

unfoldable pub child : Child → Ast.Exp → Option Ast.Exp
child first (Ast.lam_exp param body) = some body
child first (Ast.app_exp fn arg) = some fn
child first (Ast.bop_exp bop arg1 arg2) = some arg1
child first (Ast.if_exp cond t f) = some cond
child second (Ast.app_exp fn arg) = some arg
child second (Ast.bop_exp bop arg1 arg2) = some arg2
child second (Ast.if_exp cond t f) = some t
child third (Ast.if_exp cond t f) = some f
child _ _ = none

unfoldable pub set_child : Child → Ast.Exp → Ast.Exp → Ast.Exp
set_child first x (Ast.lam_exp param body) = Ast.lam_exp param x
set_child first x (Ast.app_exp fn arg) = Ast.app_exp x arg
set_child first x (Ast.bop_exp bop arg1 arg2) = Ast.bop_exp bop x arg2
set_child first x (Ast.if_exp cond t f) = Ast.if_exp x t f
set_child second x (Ast.app_exp fn arg) = Ast.app_exp fn x
set_child second x (Ast.bop_exp bop arg1 arg2) = Ast.bop_exp bop arg1 x
set_child second x (Ast.if_exp cond t f) = Ast.if_exp cond x f
set_child third x (Ast.if_exp cond t f) = Ast.if_exp cond t x
set_child _ x e = e

pub child-set_child :
    (d : Child) (x : Ast.Exp) {c : Ast.Exp} (e : Ast.Exp)
    → child d e ≡ some c
    → child d (set_child d x e) ≡ some x
unfolding child set_child
child-set_child first x (Ast.int_exp i) h = cc
child-set_child first x (Ast.var_exp i) h = cc
child-set_child first x _ h = refl
child-set_child second x (Ast.app_exp fn arg) h = refl
child-set_child second x (Ast.bop_exp bop arg1 arg2) h = refl
child-set_child second x (Ast.if_exp c t f) h = refl
child-set_child second x _ h = cc
child-set_child third x (Ast.if_exp c t f) h = refl
child-set_child third x _ h = cc

pub set_child-set_child :
    (d : Child) (x y e : Ast.Exp) → set_child d x (set_child d y e) ≡ set_child d x e
unfolding set_child
set_child-set_child first x y (Ast.int_exp i) = refl
set_child-set_child first x y _ = refl
set_child-set_child second x y (Ast.int_exp i) = refl
set_child-set_child second x y _ = refl
set_child-set_child third x y (Ast.int_exp i) = refl
set_child-set_child third x y _ = refl

pub set_child-child :
    (d : Child) {c : Ast.Exp} (e : Ast.Exp) → child d e ≡ some c → set_child d c e ≡ e
unfolding child set_child
set_child-child first (Ast.int_exp i) h = cc
set_child-child first _ h = cc
set_child-child second (Ast.int_exp i) h = cc
set_child-child second _ h = cc
set_child-child third (Ast.int_exp i) h = cc
set_child-child third _ h = cc

-- The tree of include/ast.h.
abbrev pub tree : Tree
tree = record {
  Node = Ast.Exp;
  Child = Child;
  child = child;
  set_child = set_child;
  child-set_child = child-set_child;
  set_child-set_child = set_child-set_child;
  set_child-child = set_child-child;
}

unfoldable pub get : Link → Ast.Exp → Option Ast.Exp
unfolding child Links.get
get = Links.get tree

unfoldable pub set : Link → Ast.Exp → Ast.Exp → Ast.Exp
unfolding child set_child Links.set
set = Links.set tree

-- The laws of links, of this tree.
pub get-set :
    (x : Ast.Exp) (p : Link) {r : Ast.Exp} (e : Ast.Exp)
    → get p e ≡ some r
    → get p (set p x e) ≡ some x
unfolding get set
get-set = Links.get-set tree

pub set-get : (p : Link) {r : Ast.Exp} (e : Ast.Exp) → get p e ≡ some r → set p r e ≡ e
unfolding get set
set-get = Links.set-get tree

pub set-set :
    (x y : Ast.Exp) (p : Link) {r : Ast.Exp} (e : Ast.Exp)
    → get p e ≡ some r
    → set p x (set p y e) ≡ set p x e
unfolding get set
set-set = Links.set-set tree

pub set-append :
    (x : Ast.Exp) (p q : Link) {r : Ast.Exp} (e : Ast.Exp)
    → get p e ≡ some r
    → set (p ++ q) x e ≡ set p (set q x r) e
unfolding get set
set-append = Links.set-append tree

pub get-append :
    (p q : Link) {r : Ast.Exp} (e : Ast.Exp) → get p e ≡ some r → get (p ++ q) e ≡ get q r
unfolding get
get-append = Links.get-append tree
