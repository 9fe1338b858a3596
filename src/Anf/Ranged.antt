-- ===== src/Anf/Ranged.antt =====
-- src/anf.cpp: the names of functions, which `fresh` makes one after the other.
use lambcalc_cpp.Base.{ℕ, ◌+◌, ◌≤◌, ◌≡◌, refl, some, [], ◌∷◌, Str, bytes, arith}
use lambcalc_cpp.Ast
use lambcalc_cpp.Anf
use lambcalc_cpp.Anf.{Value, int_value, var_value, glob_value}
use lambcalc_cpp.Anf.Monad.{
  ◌>>=◌, fresh, pure, fresh_name, Outcome, done, throws, null_pointer, M, bind,
}
use lambcalc_cpp.Anf.Convert.{Cont, convert_cont, convert, string_value, jump_to}
use lambcalc_cpp.Anf.Scoped.{after_body, after_cond}

-- The functions of an expression have names that `fresh` makes at counters from `n` on and before `m`,
-- in this order: a function after those in its body and before those behind it.
abbrev pub IsRanged : ℕ → Anf.Exp → ℕ → Type 0
IsRanged n (Anf.fun_exp name params body rest) m =
    (k : ℕ) × IsRanged n body k × (name ≡ fresh_name k) × IsRanged (k + 1) rest m
IsRanged n (Anf.join_exp name slot body rest) m = (k : ℕ) × IsRanged n body k × IsRanged k rest m
IsRanged n (Anf.if_exp cond t e) m = (k : ℕ) × IsRanged n t k × IsRanged k e m
IsRanged n (Anf.bop_exp name bop param1 param2 rest) m = IsRanged n rest m
IsRanged n (Anf.app_exp name fun_name param_values rest) m = IsRanged n rest m
IsRanged n (Anf.tuple_exp name values rest) m = IsRanged n rest m
IsRanged n (Anf.proj_exp name tuple index rest) m = IsRanged n rest m
IsRanged n (Anf.halt_exp value) m = n ≤ m
IsRanged n (Anf.jump_exp join_name slot_value) m = n ≤ m

IsRanged-earlier : (e : Anf.Exp) (n n' m : ℕ) → n' ≤ n → IsRanged n e m → IsRanged n' e m
IsRanged-earlier (Anf.fun_exp name params body rest) n n' m le (k, hb, q, hr) =
    (k, IsRanged-earlier body n n' k le hb, q, hr)
IsRanged-earlier (Anf.join_exp name slot body rest) n n' m le (k, hb, hr) =
    (k, IsRanged-earlier body n n' k le hb, hr)
IsRanged-earlier (Anf.if_exp cond t e) n n' m le (k, ht, he) =
    (k, IsRanged-earlier t n n' k le ht, he)
IsRanged-earlier (Anf.bop_exp name bop u v rest) n n' m le h = IsRanged-earlier rest n n' m le h
IsRanged-earlier (Anf.app_exp name f vs rest) n n' m le h = IsRanged-earlier rest n n' m le h
IsRanged-earlier (Anf.tuple_exp name vs rest) n n' m le h = IsRanged-earlier rest n n' m le h
IsRanged-earlier (Anf.proj_exp name t i rest) n n' m le h = IsRanged-earlier rest n n' m le h
IsRanged-earlier (Anf.halt_exp v) n n' m le h = omega arith
IsRanged-earlier (Anf.jump_exp j v) n n' m le h = omega arith

IsRanged-le : (e : Anf.Exp) (n m : ℕ) → IsRanged n e m → n ≤ m
IsRanged-le (Anf.fun_exp name params body rest) n m (k, hb, q, hr) =
    omega (arith, IsRanged-le body n k hb, IsRanged-le rest (k + 1) m hr)
IsRanged-le (Anf.join_exp name slot body rest) n m (k, hb, hr) =
    omega (arith, IsRanged-le body n k hb, IsRanged-le rest k m hr)
IsRanged-le (Anf.if_exp cond t e) n m (k, ht, he) =
    omega (arith, IsRanged-le t n k ht, IsRanged-le e k m he)
IsRanged-le (Anf.bop_exp name bop u v rest) n m h = IsRanged-le rest n m h
IsRanged-le (Anf.app_exp name f vs rest) n m h = IsRanged-le rest n m h
IsRanged-le (Anf.tuple_exp name vs rest) n m h = IsRanged-le rest n m h
IsRanged-le (Anf.proj_exp name t i rest) n m h = IsRanged-le rest n m h
IsRanged-le (Anf.halt_exp v) n m h = h
IsRanged-le (Anf.jump_exp j v) n m h = h

-- The names of a result, if there is one, are made from `n` on.
abbrev Numbers : ℕ → Outcome Anf.Exp → Type 0
Numbers n (done e m) = IsRanged n e m
Numbers n (throws msg m) = Unit
Numbers n null_pointer = Unit

Numbers-earlier : (n n' : ℕ) (o : Outcome Anf.Exp) → n' ≤ n → Numbers n o → Numbers n' o
Numbers-earlier n n' (done e m) le h = IsRanged-earlier e n n' m le h
Numbers-earlier n n' (throws msg m) le h = tt
Numbers-earlier n n' null_pointer le h = tt

Numbers-bind :
    (n n' : ℕ) (o : Outcome Anf.Exp) (f : Anf.Exp → M Anf.Exp)
    → Numbers n o
    → ((e : Anf.Exp) (m : ℕ) → IsRanged n e m → Numbers n' (f e m))
    → Numbers n' (bind o f)
Numbers-bind n n' (done e m) f h k = k e m h
Numbers-bind n n' (throws msg m) f h k = tt
Numbers-bind n n' null_pointer f h k = tt

-- The last part, of which the expression is built.
Numbers-build :
    (n n' : ℕ) (build : Anf.Exp → Anf.Exp) (o : Outcome Anf.Exp)
    → Numbers n o
    → ((e : Anf.Exp) (m : ℕ) → IsRanged n e m → IsRanged n' (build e) m)
    → Numbers n' (bind o (λ e. pure (build e)))
Numbers-build n n' build (done e m) h g = g e m h
Numbers-build n n' build (throws msg m) h g = tt
Numbers-build n n' build null_pointer h g = tt

string_value-Numbers :
    (lit : Str) (v : Value) (m : ℕ) (f : Str → M Anf.Exp)
    → ((g : Str) → Numbers m (f g m))
    → Numbers m (bind (string_value lit v m) f)
string_value-Numbers lit (int_value i) m f h = tt
string_value-Numbers lit (var_value x) m f h = h x
string_value-Numbers lit (glob_value x) m f h = h x

-- What a continuation does from a counter on.
convert_cont-Numbers :
    (e : Ast.Exp) (k : Cont) (n : ℕ)
    → ((v : Value) (m : ℕ) → n ≤ m → Numbers m (k v m))
    → Numbers n (convert_cont e k n)
unfolding convert_cont
convert_cont-Numbers (Ast.int_exp i) k n h = h (int_value i) n (omega arith)
convert_cont-Numbers (Ast.var_exp x) k n h = h (var_value x) n (omega arith)
convert_cont-Numbers (Ast.lam_exp x body) k n h =
    let halt : Cont = λ v. pure (Anf.halt_exp v) in
    Numbers-bind n n (convert_cont body halt n) (after_body x k)
      (convert_cont-Numbers body halt n (λ v m le. omega arith))
      λ b m r.
        let y = fresh_name m in
        let le = IsRanged-le b n m r in
        Numbers-build (m + 1) n (Anf.fun_exp y (x ∷ []) b) (k (var_value y) (m + 1))
          (h (var_value y) (m + 1) (omega arith)) (λ e q s. (m, r, refl, s))
convert_cont-Numbers (Ast.app_exp fn arg) k n h = convert_cont-Numbers fn _ n λ v m le.
    let called : Str → M Anf.Exp = λ g.
      convert_cont arg (λ a. do
        name ← fresh
        rest ← k (var_value name)
        pure (Anf.app_exp name g (a ∷ []) rest)) in
    string_value-Numbers (bytes "function") v m called λ g. convert_cont-Numbers arg _ m λ a m₂ le₂.
      let y = fresh_name m₂ in
      Numbers-build (m₂ + 1) m₂ (Anf.app_exp y g (a ∷ [])) (k (var_value y) (m₂ + 1))
        (h (var_value y) (m₂ + 1) (omega arith))
        (λ e q s. IsRanged-earlier e (m₂ + 1) m₂ q (omega arith) s)
convert_cont-Numbers (Ast.bop_exp bop a b) k n h = convert_cont-Numbers a _ n λ v m le.
    convert_cont-Numbers b _ m λ u m₂ le₂.
      let y = fresh_name m₂ in
      Numbers-build (m₂ + 1) m₂ (Anf.bop_exp y bop v u) (k (var_value y) (m₂ + 1))
        (h (var_value y) (m₂ + 1) (omega arith))
        (λ e q s. IsRanged-earlier e (m₂ + 1) m₂ q (omega arith) s)
convert_cont-Numbers (Ast.if_exp c t f) k n h = convert_cont-Numbers c _ n λ v m le.
    let j = fresh_name m in
    let slot = fresh_name (m + 1) in
    let o = k (var_value slot) (m + 1 + 1) in
    Numbers-bind m m o (after_cond v j slot t f)
      (Numbers-earlier (m + 1 + 1) m o (omega arith) (h (var_value slot) (m + 1 + 1) (omega arith)))
      λ b m₁ r.
        Numbers-bind m₁ m (convert_cont t (jump_to j) m₁)
          (λ t'. convert_cont f (jump_to j) >>= λ f'.
            pure (Anf.join_exp j (some slot) b (Anf.if_exp v t' f')))
          (convert_cont-Numbers t (jump_to j) m₁ (λ u q le. omega arith))
          λ t' m₂ r₂.
            Numbers-build m₂ m (λ f'. Anf.join_exp j (some slot) b (Anf.if_exp v t' f'))
              (convert_cont f (jump_to j) m₂)
              (convert_cont-Numbers f (jump_to j) m₂ (λ u q le. omega arith))
              (λ f' q s. (m₁, r, (m₂, r₂, s)))

pub convert-IsRanged :
    (e : Ast.Exp) (n m : ℕ) (r : Anf.Exp) → convert e n ≡ done r m → IsRanged n r m
unfolding convert
convert-IsRanged e n m r h =
    let s = convert_cont-Numbers e (λ v. pure (Anf.halt_exp v)) n (λ v k le. omega arith) in
    rw h at s

-- The counter does not go back.
pub convert_cont-le :
    (e : Ast.Exp) (n m : ℕ) (r : Anf.Exp)
    → convert_cont e (λ v. pure (Anf.halt_exp v)) n ≡ done r m
    → n ≤ m
convert_cont-le e n m r h =
    let s = convert_cont-Numbers e (λ v. pure (Anf.halt_exp v)) n (λ v k le. omega arith) in
    let ranged : IsRanged n r m = rw h at s in IsRanged-le r n m ranged
