-- ===== src/Ast.antt =====
-- include/ast.h: the syntax tree of the source language. A `Ptr` to a subtree is the subtree.

pub mod Links
pub mod Semantics
pub mod Print
use lambcalc_cpp.Base.{Str, ℤ}

pub data Bop : Type 0 where
  plus minus times : Bop

pub data Exp : Type 0 where
  int_exp : ℤ → Exp
  var_exp : Str → Exp
  lam_exp : Str → Exp → Exp
  app_exp : Exp → Exp → Exp
  bop_exp : Bop → Exp → Exp → Exp
  if_exp : Exp → Exp → Exp → Exp
