-- ===== src/Tests/HoistTests.antt =====
-- Inputs of test/hoist.cpp, and the theorems on `hoist` at one of them.
use lambcalc_cpp.Base.{ℕ, List, Str, ◌≡◌, refl, inl, none, some, [], ◌∷◌, bytes, pos, numbered}
use lambcalc_cpp.Ast
use lambcalc_cpp.Anf
use lambcalc_cpp.Anf.{Value, int_value, var_value}
use lambcalc_cpp.Hoist.{Function, hoist, perform}
use lambcalc_cpp.Hoist.Recursive.{functions_of}
use lambcalc_cpp.Hoist.Correct.{hoist-eq-functions_of}
use lambcalc_cpp.Hoist.Blocks.{AreComplete, hoist-AreComplete}

abbrev halt_int : ℕ → Anf.Exp
halt_int n = Anf.halt_exp (int_value (pos n))

abbrev simple_join : Anf.Exp
simple_join =
    Anf.join_exp (bytes "a") (some (bytes "x"))
      (Anf.join_exp (bytes "b") none (halt_int 0) (
        Anf.bop_exp (bytes "y") Ast.plus (var_value (bytes "x")) (int_value (pos 1))
          (Anf.halt_exp (var_value (bytes "y")))))
      (Anf.join_exp (bytes "c") none (halt_int 1)
        (Anf.jump_exp (bytes "a") (some (int_value (pos 1)))))

-- `Hoist.SimpleJoin`.
hoist-simple_join :
    hoist simple_join
    ≡ some (
        record {
          name = bytes "main";
          params = [];
          entry_block = record {
            name = bytes "entry0";
            slot = none;
            body = Anf.jump_exp (bytes "a") (some (int_value (pos 1)));
          };
          blocks =
              record { name = bytes "b"; slot = none; body = halt_int 0 }
              ∷ record {
                name = bytes "a";
                slot = some (bytes "x");
                body =
                    Anf.bop_exp
                      (bytes "y")
                      Ast.plus
                      (var_value (bytes "x"))
                      (int_value (pos 1))
                      (Anf.halt_exp (var_value (bytes "y")));
              }
              ∷ record { name = bytes "c"; slot = none; body = halt_int 1 }
              ∷ [];
        }
        ∷ [])
unfolding hoist perform numbered Anf.Links.get Anf.Links.set
hoist-simple_join = refl

abbrev halt_var : Str → Anf.Exp
halt_var x = Anf.halt_exp (var_value x)

abbrev fun_join : Anf.Exp
fun_join =
    Anf.fun_exp (bytes "f1") (bytes "a" ∷ [])
      (Anf.join_exp (bytes "j1") none
        (Anf.fun_exp (bytes "f2") (bytes "b" ∷ [])
          (Anf.join_exp (bytes "j2") (some (bytes "c")) (halt_var (bytes "c"))
            (Anf.jump_exp (bytes "j2") (some (int_value (pos 0)))))
          (Anf.app_exp (bytes "y") (bytes "f2") (int_value (pos 1) ∷ []) (halt_var (bytes "y"))))
        (Anf.join_exp (bytes "j3") none (Anf.jump_exp (bytes "j1") none)
          (Anf.jump_exp (bytes "j3") none)))
      (Anf.app_exp (bytes "x") (bytes "f1") (int_value (pos 0) ∷ []) (halt_var (bytes "x")))

-- `Hoist.FunJoin`.
hoist-fun_join :
    hoist fun_join
    ≡ some (
        record {
          name = bytes "f2";
          params = bytes "b" ∷ [];
          entry_block = record {
            name = bytes "entry0";
            slot = none;
            body = Anf.jump_exp (bytes "j2") (some (int_value (pos 0)));
          };
          blocks =
              record { name = bytes "j2"; slot = some (bytes "c"); body = halt_var (bytes "c") }
              ∷ [];
        }
        ∷ record {
          name = bytes "f1";
          params = bytes "a" ∷ [];
          entry_block = record {
            name = bytes "entry1";
            slot = none;
            body = Anf.jump_exp (bytes "j3") none;
          };
          blocks =
              record {
                name = bytes "j1";
                slot = none;
                body =
                    Anf.app_exp
                      (bytes "y")
                      (bytes "f2")
                      (int_value (pos 1) ∷ [])
                      (halt_var (bytes "y"));
              }
              ∷ record { name = bytes "j3"; slot = none; body = Anf.jump_exp (bytes "j1") none }
              ∷ [];
        }
        ∷ record {
          name = bytes "main";
          params = [];
          entry_block = record {
            name = bytes "entry2";
            slot = none;
            body =
                Anf.app_exp
                  (bytes "x")
                  (bytes "f1")
                  (int_value (pos 0) ∷ [])
                  (halt_var (bytes "x"));
          };
          blocks = [];
        }
        ∷ [])
unfolding hoist perform numbered Anf.Links.get Anf.Links.set
hoist-fun_join = refl

hoist-eq-functions_of_example : hoist fun_join ≡ some (functions_of fun_join)
hoist-eq-functions_of_example = hoist-eq-functions_of fun_join

hoist-AreComplete_example : (fs : List Function) × (hoist fun_join ≡ some fs) × AreComplete fs
hoist-AreComplete_example =
    hoist-AreComplete fun_join ((((tt, inl refl), tt), (inl refl, inl refl)), tt)
