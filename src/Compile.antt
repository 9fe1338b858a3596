-- ===== src/Compile.antt =====
-- src/main.cpp: what the loop of `main` does with an expression that it has read, up to the functions
-- that it hands to `lower::lower`. The counter of src/anf.cpp is static, so that it stays from one
-- expression to the next.
pub mod Passes
pub mod Correct
pub mod Names
pub mod Closed
pub mod Preserves
use lambcalc_cpp.Base.{ℕ, suc, Option, none, some, List, Str}
use lambcalc_cpp.Ast
use lambcalc_cpp.Anf
use lambcalc_cpp.Anf.Monad.{Outcome, done, throws, null_pointer}
use lambcalc_cpp.Anf.Defunc.{convert_defunc}
use lambcalc_cpp.Rename.{Renamed, renamed, not_in_scope, broken_link, rename}
use lambcalc_cpp.Closure.Conversion.{closure_convert}
use lambcalc_cpp.Closure.Conversion.Recursive.{rounds}
use lambcalc_cpp.Hoist.{Function, hoist}

module _ {A B : Type 0} where
  infixl 1 ◌>>=◌
  abbrev ◌>>=◌ : Option A → (A → Option B) → Option B
  none >>= f = none
  some a >>= f = f a

pub data Compiled : Type 0 where
  -- the functions, and the counter of src/anf.cpp
  compiled : List Function → ℕ → Compiled
  -- the message of a `NotInScopeException` is printed, and the loop goes on
  reports : Str → Compiled
  -- an exception that nothing catches
  uncaught : Str → Compiled
  invalid_pointer : Compiled

abbrev pub hoist_converted : Anf.Exp → ℕ → Option Compiled
hoist_converted anf n = do
  convert ← closure_convert (suc (rounds anf 0)) anf
  hoisted ← hoist convert
  some (compiled hoisted n)

abbrev pub after_convert : Outcome Anf.Exp → Option Compiled
after_convert (done anf n) = hoist_converted anf n
after_convert (throws msg n) = some (uncaught msg)
after_convert null_pointer = some invalid_pointer

abbrev pub after_rename : ℕ → Renamed → Option Compiled
after_rename n (renamed exp) = do o ← convert_defunc exp n; after_convert o
after_rename n (not_in_scope x) = some (reports x)
after_rename n broken_link = some invalid_pointer

-- `none` means that the fuel of a loop did not suffice.
unfoldable pub compile : Ast.Exp → ℕ → Option Compiled
compile exp n = do r ← rename exp; after_rename n r
