-- ===== src/Lib.antt =====
-- lambcalc: a compiler for a lambda calculus with integers, `if` and three operators. A line of the
-- REPL is read (lexer, parser), its parameters are renamed apart (rename), it is brought into
-- A-normal form with join points (anf), its functions are closed (convert), functions and join points
-- are moved to the top (hoist), and LLVM code is made of the result (lower).
--
-- The parts, and the files that model them:
-- - Ast, Anf: the trees of include/ast.h and include/anf.h, with the source's constructors and fields.
-- - Ast/Links, Anf/Links, over Links: a `std::unique_ptr<Exp> *` or `Exp &` that a pass keeps is the
--   way from the root to that place, and the passes read and write through it.
-- - Rename: src/rename.cpp. `visit` is the visitor, `restore` the function that the visit of a
--   `LamExp` pushes, `rename` the loop.
-- - Anf/Unshadowed, Anf/Known, Anf/Shape, Anf/Ranged: the expressions without shadowing, without free
--   variables, with at most one conditional in a function, and with ascending names of functions, which the
--   files of the same names, Names, Closed and Ordered follow through the passes.
-- - Ast/Semantics, Anf/Semantics: what expressions of both trees evaluate to, as relations that were written
--   for this library: functions are called by value with the environment where they stand, the operators on
--   integers are an argument, and an integer other than 0 chooses the first branch, as CreateICmpNE in
--   src/lower.cpp has it. Anf/Preserves and Rename/Preserves follow them through the first two passes.
-- - Anf/Convert: the recursive `convert` of src/anf.cpp; Anf/Defunc: `convertDefunc`, with a round
--   of its `switch` as `step`. Anf/Monad has the static counter and the exceptions.
-- - VarSet, Closure/FreeVars, Closure/Conversion: `freeVars` and `closureConvert` of src/convert.cpp.
-- - Hoist: src/hoist.cpp, with the functions that the visitor pushes as tasks.
-- - Compile: the passes as `main` of src/main.cpp calls them, with what it catches.
-- - Lexer: include/lexer.h and src/lexer.cpp. Parser: include/parser.h and src/parser.cpp.
-- - Ast/Print, Anf/Print: the printed forms of src/visitor.cpp. Parser/RoundTrip goes from the first back.
-- - Lower: src/lower.cpp. Lower/Library is what it calls of LLVM, as a record of types and operations that
--   the definitions have as an argument; Lower/Visitor has the handlers, with MatchIfJump of
--   include/visitor.h, and Lower/Module `lowerBlock` and `lowerModule`.
-- - Repl: the loop of `main`, with what it writes. What is done with the functions is an argument;
--   Repl/Evaluate is that argument for Lower, with what the JIT makes of a module as an argument of its own.
-- - Arena: the bump allocator of include/arena.h, with addresses for pointers.
-- - Destructor: `DestructorTask` of include/visitor.h with the destructors of src/ast.cpp and src/anf.cpp
--   for trees of `std::unique_ptr`; a tree of raw pointers frees nothing.
-- - Base: strings as lists of bytes, `std::to_string`, tests on numbers.
-- - Tests: some of the inputs of test/*.cpp, and each theorem that has a hypothesis or an argument at an input.
--
-- Each pass has a file Recursive with a recursion that describes it, or describes itself (Convert), and
-- files that are named for what is proved. A loop `while (!worklist.empty())` runs on fuel; `rename`,
-- `hoist`, `convert_defunc`, `free_vars` and `lower_block` compute their fuel from the expression, and
-- `compile` that of `closure_convert`, from the tasks that the visit of each expression pushes.
-- `parse_expression` takes three times what is left to read, and 4, since between two tokens at most three
-- functions call each other. The loop of `main` has its fuel as an argument: twice what is left to read,
-- and 2, is enough.
--
-- Numbers: the counters, and the literals of a tree, are unbounded, where the program has an `int`. The lexer
-- makes an `int` of a number: what that gives from 2 ^ 31 on, where C++ leaves it undefined, is the argument
-- `beyond_int`, some integer for each number. The counts of the allocator are not negative. A body
-- that is moved out of an expression stays in the model's tree until the expression is overwritten.
--
-- The buffer of the allocator is taken to be large enough in Repl; Arena says when it is not.
--
-- Not modelled: include/KaleidoscopeJIT.h, the managers of the passes in src/lower.cpp and what `main`
-- does with the lowered module, which are calls of LLVM; and the debug output of `main`.
pub mod Base
pub mod Links
pub mod Ast
pub mod Anf
pub mod VarSet
pub mod Closure
pub mod Rename
pub mod Hoist
pub mod Compile
pub mod Lexer
pub mod Parser
pub mod Repl
pub mod Lower
pub mod Arena
pub mod Destructor
mod Tests
