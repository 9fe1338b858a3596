-- ===== src/Parser/Rounds.antt =====
-- src/parser.cpp: a round of the loop of `parseBinOp`, by what it decides.
use lambcalc_cpp.Base.{ℕ, suc, ◌≡◌}
use lambcalc_cpp.Ast
use lambcalc_cpp.Ast.{Bop}
use lambcalc_cpp.Parser
use lambcalc_cpp.Parser.{
  BindingPowers, parsed, bind, next_token, look, decide, operator, application, stop, parse_bin_op,
  parse_rest,
}

module _ (bp : BindingPowers) where
  pub parse_rest-operator :
      (f min_bp rbp : ℕ) (bop : Bop) (lhs : Ast.Exp) (s : Parser.Parser)
      → decide bp min_bp (look s).0 ≡ operator bop rbp
      → parse_rest bp (suc f) min_bp lhs s
        ≡ bind
            (parse_bin_op bp f rbp (next_token (look s).1))
            (λ rhs. parse_rest bp f min_bp (Ast.bop_exp bop lhs rhs))
  unfolding parse_bin_op
  parse_rest-operator f min_bp rbp bop lhs s e = rw (e, parse_rest)

  pub parse_rest-application :
      (f min_bp : ℕ) (lhs : Ast.Exp) (s : Parser.Parser)
      → decide bp min_bp (look s).0 ≡ application
      → parse_rest bp (suc f) min_bp lhs s
        ≡ bind
            (parse_bin_op bp f Parser.app_rbp (look s).1)
            (λ rhs. parse_rest bp f min_bp (Ast.app_exp lhs rhs))
  unfolding parse_bin_op
  parse_rest-application f min_bp lhs s e = rw (e, parse_rest)

  pub parse_rest-stop :
      (f min_bp : ℕ) (lhs : Ast.Exp) (s : Parser.Parser)
      → decide bp min_bp (look s).0 ≡ stop
      → parse_rest bp (suc f) min_bp lhs s ≡ parsed lhs (look s).1
  unfolding parse_bin_op
  parse_rest-stop f min_bp lhs s e = rw (e, parse_rest)
