-- ===== src/Repl/Evaluate.antt =====
-- src/main.cpp: what is done with the functions, with the lowering of src/lower.cpp. What the JIT makes of
-- a module, and what the compiled `main` returns, is the argument `execute`, `none` where that does not
-- return.
use lambcalc_cpp.Base.{Option, none, List, Str}
use lambcalc_cpp.Hoist.{Function}
use lambcalc_cpp.Lower.Library.{Llvm}
use lambcalc_cpp.Lower.{Lowering, lowered}
use lambcalc_cpp.Lower.Module.{lower_module}

-- `module` is what `initializeModuleAndManagers` returns.
module _ (L : Llvm) (empty_module : L.Ir) (execute : L.Ir → Option Str) where
  abbrev pub after_lower : Lowering L.Ir → Option Str
  after_lower (lowered ir) = execute ir
  after_lower _ = none

  unfoldable pub evaluate : List Function → Option Str
  unfolding lower_module
  evaluate fns = after_lower (lower_module L fns empty_module)
