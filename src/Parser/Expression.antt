-- ===== src/Parser/Expression.antt =====
-- src/parser.cpp, `parseExpression`, with the fuel that is enough for what is left to read.
use lambcalc_cpp.Base.{ℕ, ◌+◌, ◌*◌, arith}
use lambcalc_cpp.Ast
use lambcalc_cpp.Parser
use lambcalc_cpp.Parser.{BindingPowers, Parsed, parse_bin_op}
use lambcalc_cpp.Parser.Left.{left, Ends}
use lambcalc_cpp.Parser.Ends.{parse_bin_op-Ends}

-- `baseBP`.
abbrev pub base_bp : ℕ
base_bp = 0

unfoldable pub parse_expression : BindingPowers → Parser.Parser → Parsed Ast.Exp
unfolding parse_bin_op
parse_expression bp s = parse_bin_op bp (3 * left s + 4) base_bp s

-- `parseExpression` ends.
pub parse_expression-Ends :
    (bp : BindingPowers) (s : Parser.Parser) → Ends (left s) (parse_expression bp s)
unfolding parse_expression
parse_expression-Ends bp s = parse_bin_op-Ends bp (3 * left s + 4) base_bp s (omega arith)
