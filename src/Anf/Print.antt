-- ===== src/Anf/Print.antt =====
-- src/visitor.cpp and `dump` of src/anf.cpp: what `operator<<` puts on the stream for an expression
-- in A-normal form.
use lambcalc_cpp.Base.{
  Option, none, some, List, [], ◌∷◌, ◌++◌, Str, bytes, to_string, int_to_string,
}
use lambcalc_cpp.Ast.Print.{bin_op_string}
use lambcalc_cpp.Anf
use lambcalc_cpp.Anf.{Value, int_value, var_value, glob_value}

-- `PrintValueVisitor`.
abbrev pub print_value : Value → Str
print_value (int_value value) = int_to_string value
print_value (var_value var) = var
print_value (glob_value glob) = glob

-- The loop of `print_vector`.
abbrev pub print_elements : {A : Type 0} → (A → Str) → List A → Str
print_elements print [] = []
print_elements print (x ∷ []) = print x
print_elements print (x ∷ y ∷ vec) = print x ++ (bytes ", " ++ print_elements print (y ∷ vec))

abbrev pub print_vector : {A : Type 0} → (A → Str) → List A → Str
print_vector print vec = bytes "[" ++ (print_elements print vec ++ bytes "]")

abbrev pub print_optional : {A : Type 0} → (A → Str) → Option A → Str
print_optional print none = bytes "<>"
print_optional print (some x) = bytes "<" ++ (print x ++ bytes ">")

abbrev pub comma : Str
comma = bytes ", "

abbrev pub close : Str
close = bytes " }"

-- `PrintExpVisitor`.
unfoldable pub dump : Anf.Exp → Str
dump (Anf.halt_exp value) = bytes "HaltExp { " ++ (print_value value ++ close)
dump (Anf.fun_exp name params body rest) =
    bytes "FunExp { "
    ++ (name
        ++ (comma
            ++ (print_vector (λ x. x) params
                ++ (comma ++ (dump body ++ (comma ++ (dump rest ++ close)))))))
dump (Anf.join_exp name slot body rest) =
    bytes "JoinExp { "
    ++ (name
        ++ (comma
            ++ (print_optional (λ x. x) slot
                ++ (comma ++ (dump body ++ (comma ++ (dump rest ++ close)))))))
dump (Anf.jump_exp join_name slot_value) =
    bytes "JumpExp { " ++ (join_name ++ (comma ++ (print_optional print_value slot_value ++ close)))
dump (Anf.app_exp name fun_name param_values rest) =
    bytes "AppExp { "
    ++ (name
        ++ (comma
            ++ (fun_name
                ++ (comma
                    ++ (print_vector print_value param_values
                        ++ (comma ++ (dump rest ++ close)))))))
dump (Anf.bop_exp name bop param1 param2 rest) =
    bytes "BopExp { "
    ++ (name
        ++ (comma
            ++ (bin_op_string bop
                ++ (comma
                    ++ (print_value param1
                        ++ (comma ++ (print_value param2 ++ (comma ++ (dump rest ++ close)))))))))
dump (Anf.tuple_exp name values rest) =
    bytes "TupleExp { "
    ++ (name ++ (comma ++ (print_vector print_value values ++ (comma ++ (dump rest ++ close)))))
dump (Anf.proj_exp name tuple index rest) =
    bytes "ProjExp { "
    ++ (name
        ++ (comma ++ (tuple ++ (comma ++ (to_string index ++ (comma ++ (dump rest ++ close)))))))
dump (Anf.if_exp cond then_branch else_branch) =
    bytes "IfExp { "
    ++ (print_value cond ++ (comma ++ (dump then_branch ++ (comma ++ (dump else_branch ++ close)))))
