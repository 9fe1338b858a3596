-- ===== src/Ast/Print.antt =====
-- src/visitor.cpp and `dump` of src/ast.cpp: what `operator<<` puts on the stream for an expression.
use lambcalc_cpp.Base.{◌++◌, Str, bytes, int_to_string}
use lambcalc_cpp.Ast
use lambcalc_cpp.Ast.{Bop, plus, minus, times}

-- `binOpString`.
abbrev pub bin_op_string : Bop → Str
bin_op_string plus = bytes "+"
bin_op_string minus = bytes "-"
bin_op_string times = bytes "*"

unfoldable pub dump : Ast.Exp → Str
dump (Ast.int_exp value) = int_to_string value
dump (Ast.var_exp name) = name
dump (Ast.lam_exp param body) =
    bytes "(fn " ++ (param ++ (bytes " => " ++ (dump body ++ bytes ")")))
dump (Ast.app_exp fn arg) = bytes "(" ++ (dump fn ++ (bytes " " ++ (dump arg ++ bytes ")")))
dump (Ast.bop_exp bop arg1 arg2) =
    bytes "("
    ++ (dump arg1 ++ (bytes " " ++ (bin_op_string bop ++ (bytes " " ++ (dump arg2 ++ bytes ")")))))
dump (Ast.if_exp cond then_branch else_branch) =
    bytes "(if "
    ++ (dump cond
        ++ (bytes " then "
            ++ (dump then_branch ++ (bytes " else " ++ (dump else_branch ++ bytes ")")))))
