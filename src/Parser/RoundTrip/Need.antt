-- ===== src/Parser/RoundTrip/Need.antt =====
-- src/parser.cpp and src/visitor.cpp: the fuel that a printed expression needs.
use lambcalc_cpp.Base.{
  ℕ, ◌+◌, ◌*◌, ◌≤◌, ◌≡◌, true, [], ◌∷◌, ◌++◌, pos, negsuc, int_to_string, length, length-append,
  arith,
}
use lambcalc_cpp.Ast
use lambcalc_cpp.Ast.{Bop, plus, minus, times}
use lambcalc_cpp.Ast.Print.{dump, bin_op_string}
use lambcalc_cpp.Lexer.{fits_int}
use lambcalc_cpp.Lexer.Numbers.{to_string-cons}
use lambcalc_cpp.Parser.RoundTrip.Keywords.{IsName, arrow_text, then_text, else_text}

-- The names are identifiers and no keywords, and the literals are values of `int` that are not negative.
abbrev pub IsPrintable : Ast.Exp → Type 0
IsPrintable (Ast.int_exp (pos n)) = fits_int n ≡ true
IsPrintable (Ast.int_exp (negsuc n)) = ⊥
IsPrintable (Ast.var_exp x) = IsName x
IsPrintable (Ast.lam_exp x body) = IsName x × IsPrintable body
IsPrintable (Ast.app_exp fn arg) = IsPrintable fn × IsPrintable arg
IsPrintable (Ast.bop_exp bop a b) = IsPrintable a × IsPrintable b
IsPrintable (Ast.if_exp c t e) = IsPrintable c × IsPrintable t × IsPrintable e

-- The fuel for `parsePrimary` at the printed form.
abbrev pub need : Ast.Exp → ℕ
need (Ast.int_exp i) = 1
need (Ast.var_exp x) = 1
need (Ast.lam_exp x body) = need body + 6
need (Ast.app_exp fn arg) = need fn + need arg + 6
need (Ast.bop_exp bop a b) = need a + need b + 6
need (Ast.if_exp c t e) = need c + need t + need e + 8

pub need_pos : (e : Ast.Exp) → 1 ≤ need e
need_pos (Ast.int_exp i) = omega arith
need_pos (Ast.var_exp x) = omega arith
need_pos (Ast.lam_exp x body) = omega arith
need_pos (Ast.app_exp fn arg) = omega arith
need_pos (Ast.bop_exp bop a b) = omega arith
need_pos (Ast.if_exp c t e) = omega arith

-- The printed form is longer than a third of the fuel that it needs.
pub need-le-length : (e : Ast.Exp) → IsPrintable e → need e ≤ 3 * length (dump e)
unfolding dump int_to_string
need-le-length (Ast.int_exp (pos n)) h = let (c, cs, e) = to_string-cons n in rw (e) (omega arith)
need-le-length (Ast.int_exp (negsuc n)) h = absurd h
need-le-length (Ast.var_exp []) h = absurd h
need-le-length (Ast.var_exp (x ∷ xs)) h = omega arith
need-le-length (Ast.lam_exp x body) (name, h) = omega (
  arith,
  need-le-length body h,
  length-append x (arrow_text (dump body ++ 41 ∷ [])),
  length-append (dump body) (41 ∷ []),
)
need-le-length (Ast.app_exp a b) (ha, hb) = omega (
  arith,
  need-le-length a ha,
  need-le-length b hb,
  length-append (dump a) (32 ∷ (dump b ++ 41 ∷ [])),
  length-append (dump b) (41 ∷ []),
)
need-le-length (Ast.bop_exp o a b) (ha, hb) = omega (
  arith,
  need-le-length a ha,
  need-le-length b hb,
  length-append (dump a) (32 ∷ (bin_op_string o ++ 32 ∷ (dump b ++ 41 ∷ []))),
  length-append (bin_op_string o) (32 ∷ (dump b ++ 41 ∷ [])),
  length-append (dump b) (41 ∷ []),
)
need-le-length (Ast.if_exp c t e) (hc, ht, he) = omega (
  arith,
  need-le-length c hc,
  need-le-length t ht,
  need-le-length e he,
  length-append (dump c) (then_text (dump t ++ else_text (dump e ++ 41 ∷ []))),
  length-append (dump t) (else_text (dump e ++ 41 ∷ [])),
  length-append (dump e) (41 ∷ []),
)
