-- ===== src/Anf/Names/Hidden.antt =====
-- src/anf.cpp: the variables of what an expression is converted to, and which of them hide others.
use lambcalc_cpp.Base.{
  ℕ, ◌+◌, ◌≤◌, ◌≡◌, refl, true, some, List, [], ◌∷◌, Str, bytes, str_eq_refl, arith,
}
use lambcalc_cpp.Ast
use lambcalc_cpp.Anf
use lambcalc_cpp.Anf.{Value, int_value, var_value, glob_value}
use lambcalc_cpp.Anf.Monad.{◌>>=◌, pure, fresh_name, Outcome, done, throws, null_pointer, M, bind}
use lambcalc_cpp.Anf.Convert.{Cont, convert_cont, convert, string_value, jump_to}
use lambcalc_cpp.Anf.Unshadowed.{IsHeld, IsUnshadowed}
use lambcalc_cpp.VarSet.{contains}
use lambcalc_cpp.Anf.Names.{
  IsNamed, IsOpen, Extends, IsOpen-cons, IsOpen-own, IsOpen-later, Extends-cons, Extends-refl,
  IsNamed-extend, IsHeld-extend, Extends-trans,
}

-- A result, if there is one, satisfies `Q`, and the counter has not gone back.
abbrev Gives : {A : Type 0} → ℕ → (A → Type 0) → Outcome A → Type 0
Gives n Q (done a m) = (n ≤ m) × Q a
Gives n Q (throws msg m) = Unit
Gives n Q null_pointer = Unit

Gives-earlier :
    {A : Type 0} (n m : ℕ) (Q : A → Type 0) (o : Outcome A) → n ≤ m → Gives m Q o → Gives n Q o
Gives-earlier n m Q (done a k) le (l, h) = (omega arith, h)
Gives-earlier n m Q (throws msg k) le h = tt
Gives-earlier n m Q null_pointer le h = tt

Gives-bind :
    {A B : Type 0} (n : ℕ) (Q : A → Type 0) (R : B → Type 0) (o : Outcome A) (f : A → M B)
    → Gives n Q o
    → ((a : A) (m : ℕ) → n ≤ m → Q a → Gives m R (f a m))
    → Gives n R (bind o f)
Gives-bind n Q R (done a m) f (le, h) k = Gives-earlier n m R (f a m) le (k a m le h)
Gives-bind n Q R (throws msg m) f h k = tt
Gives-bind n Q R null_pointer f h k = tt

-- The last part, of which the expression is built.
Gives-build :
    (n m : ℕ) (xs ys : List Str) (build : Anf.Exp → Anf.Exp) (o : Outcome Anf.Exp)
    → n ≤ m
    → Gives m (IsUnshadowed ys) o
    → ((r : Anf.Exp) → IsUnshadowed ys r → IsUnshadowed xs (build r))
    → Gives n (IsUnshadowed xs) (bind o (λ r. pure (build r)))
Gives-build n m xs ys build (done r k) le (l, h) g = (omega arith, g r h)
Gives-build n m xs ys build (throws msg k) le h g = tt
Gives-build n m xs ys build null_pointer le h g = tt

-- What a continuation does with a value that is held.
abbrev Continues : List Str → ℕ → Cont → Type 0
Continues xs n k =
    (ys : List Str) (v : Value) (m : ℕ)
    → n ≤ m
    → Extends xs ys
    → IsOpen ys m
    → IsHeld ys v
    → Gives m (IsUnshadowed ys) (k v m)

-- The continuation is given a new name.
Continues-fresh :
    (xs ys : List Str) (n m : ℕ) (k : Cont)
    → Continues xs n k
    → n ≤ m
    → Extends xs ys
    → IsOpen ys m
    → Gives (m + 1) (IsUnshadowed (fresh_name m ∷ ys)) (k (var_value (fresh_name m)) (m + 1))
unfolding contains
Continues-fresh xs ys n m k h le ex op =
    h (fresh_name m ∷ ys) (var_value (fresh_name m)) (m + 1) (omega arith) (Extends-cons xs ys m ex)
      (IsOpen-cons ys m op) (rw (str_eq_refl (fresh_name m)))

Continues-halt : (xs : List Str) (n : ℕ) → Continues xs n (λ v. pure (Anf.halt_exp v))
Continues-halt xs n ys v m le ex op held = (omega arith, held)

Continues-jump : (xs : List Str) (n : ℕ) (j : Str) → Continues xs n (jump_to j)
Continues-jump xs n j ys v m le ex op held = (omega arith, held)

string_value-Gives :
    (lit : Str) (v : Value) (m : ℕ) (xs : List Str)
    → IsHeld xs v
    → Gives m (λ g. contains xs g ≡ true) (string_value lit v m)
string_value-Gives lit (int_value i) m xs h = tt
string_value-Gives lit (var_value x) m xs h = (omega arith, h)
string_value-Gives lit (glob_value x) m xs h = (omega arith, h)

-- The conversion of the branches, after what follows the conditional.
Gives-if :
    (v : Value) (ys : List Str) (m : ℕ) (t f : Ast.Exp) (o : Outcome Anf.Exp)
    → IsOpen ys m
    → IsHeld ys v
    → Gives (m + 1 + 1) (IsUnshadowed (fresh_name (m + 1) ∷ ys)) o
    → ((k : ℕ)
        → m + 1 + 1 ≤ k
        → Gives k (IsUnshadowed ys) (convert_cont t (jump_to (fresh_name m)) k))
    → ((k : ℕ)
        → m + 1 + 1 ≤ k
        → Gives k (IsUnshadowed ys) (convert_cont f (jump_to (fresh_name m)) k))
    → Gives m (IsUnshadowed ys) (
        bind o (λ body. convert_cont t (jump_to (fresh_name m)) >>= λ t'.
        convert_cont f (jump_to (fresh_name m)) >>= λ f'.
        pure (Anf.join_exp (fresh_name m) (some (fresh_name (m + 1))) body (Anf.if_exp v t' f'))))
Gives-if v ys m t f o op held body gt gf =
    let j = fresh_name m in
    let slot = fresh_name (m + 1) in
    let start = m + 1 + 1 in
    Gives-earlier m start (IsUnshadowed ys) _ (omega arith) (
      Gives-bind start (IsUnshadowed (slot ∷ ys)) (IsUnshadowed ys) o _ body λ b m₁ le₁ sb.
        Gives-bind m₁ (IsUnshadowed ys) (IsUnshadowed ys) _ _ (gt m₁ le₁) λ t' m₂ le₂ st.
          Gives-build m₂ m₂ ys ys (λ f'. Anf.join_exp j (some slot) b (Anf.if_exp v t' f')) _
            (omega arith) (gf m₂ (omega arith))
            (λ f' sf. (op m (omega arith), (op (m + 1) (omega arith), tt), sb, (held, st, sf))))

-- Under such a continuation a conversion hides no name.
convert_cont-IsUnshadowed :
    (e : Ast.Exp) (xs : List Str) (k : Cont) (n : ℕ)
    → IsNamed xs e
    → IsOpen xs n
    → Continues xs n k
    → Gives n (IsUnshadowed xs) (convert_cont e k n)
unfolding convert_cont
convert_cont-IsUnshadowed (Ast.int_exp i) xs k n named op h =
    h xs (int_value i) n (omega arith) (Extends-refl xs) op tt
convert_cont-IsUnshadowed (Ast.var_exp x) xs k n named op h =
    h xs (var_value x) n (omega arith) (Extends-refl xs) op named
convert_cont-IsUnshadowed (Ast.lam_exp x body) xs k n (new, own, named) op h =
    Gives-bind n (IsUnshadowed (x ∷ xs)) (IsUnshadowed xs) _ _
      (convert_cont-IsUnshadowed body (x ∷ xs) _ n named (IsOpen-own xs x n own op)
        (Continues-halt (x ∷ xs) n))
      λ b m le s.
        let y = fresh_name m in
        Gives-build m (m + 1) xs (y ∷ xs) (Anf.fun_exp y (x ∷ []) b) _ (omega arith)
          (Continues-fresh xs xs n m k h le (Extends-refl xs) (IsOpen-later xs n m le op))
          (λ r s'. (op m le, (new, tt), s, s'))
convert_cont-IsUnshadowed (Ast.app_exp fn arg) xs k n (nf, na) op h =
    convert_cont-IsUnshadowed fn xs _ n nf op λ ys v m le ex op' held.
      Gives-bind m (λ g. contains ys g ≡ true) (IsUnshadowed ys) _ _
        (string_value-Gives (bytes "function") v m ys held)
        λ g m₁ le₁ cg.
          convert_cont-IsUnshadowed arg ys _ m₁ (IsNamed-extend arg xs ys ex na)
            (IsOpen-later ys m m₁ le₁ op')
            λ zs a m₂ le₂ ex₂ op₂ ha.
              let y = fresh_name m₂ in
              Gives-build m₂ (m₂ + 1) zs (y ∷ zs) (Anf.app_exp y g (a ∷ [])) _ (omega arith)
                (Continues-fresh xs zs n m₂ k h (omega arith) (Extends-trans xs ys zs ex ex₂) op₂)
                (λ r s. (op₂ m₂ (omega arith), ex₂.0 g cg, (ha, tt), s))
convert_cont-IsUnshadowed (Ast.bop_exp bop a b) xs k n (na, nb) op h =
    convert_cont-IsUnshadowed a xs _ n na op λ ys v m le ex op' held.
      convert_cont-IsUnshadowed b ys _ m (IsNamed-extend b xs ys ex nb) op'
        λ zs u m₂ le₂ ex₂ op₂ hu.
          let y = fresh_name m₂ in
          Gives-build m₂ (m₂ + 1) zs (y ∷ zs) (Anf.bop_exp y bop v u) _ (omega arith)
            (Continues-fresh xs zs n m₂ k h (omega arith) (Extends-trans xs ys zs ex ex₂) op₂)
            (λ r s. (op₂ m₂ (omega arith), IsHeld-extend v ys zs ex₂ held, hu, s))
convert_cont-IsUnshadowed (Ast.if_exp c t f) xs k n (nc, nt, nf) op h =
    convert_cont-IsUnshadowed c xs _ n nc op λ ys v m le ex op' held.
      let branch : (e : Ast.Exp)
          → IsNamed xs e
          → ((q : ℕ)
              → IsNamed ys e
              → IsOpen ys q
              → Continues ys q (jump_to (fresh_name m))
              → Gives q (IsUnshadowed ys) (convert_cont e (jump_to (fresh_name m)) q))
          → (q : ℕ) → m + 1 + 1 ≤ q
          → Gives q (IsUnshadowed ys) (convert_cont e (jump_to (fresh_name m)) q) =
        λ e named ih q le'.
          ih q (IsNamed-extend e xs ys ex named) (IsOpen-later ys m q (omega arith) op')
            (Continues-jump ys q (fresh_name m)) in
      Gives-if v ys m t f (k (var_value (fresh_name (m + 1))) (m + 1 + 1)) op' held
        (Continues-fresh xs ys n (m + 1) k h (omega arith) ex
          (IsOpen-later ys m (m + 1) (omega arith) op'))
        (branch t nt (convert_cont-IsUnshadowed t ys _))
        (branch f nf (convert_cont-IsUnshadowed f ys _))

-- A conversion of an expression whose parameters are its own hides no name, and uses bound ones only.
pub convert-IsUnshadowed :
    (e : Ast.Exp) (n m : ℕ) (r : Anf.Exp)
    → IsNamed [] e
    → convert e n ≡ done r m
    → IsUnshadowed [] r
unfolding convert contains
convert-IsUnshadowed e n m r named h =
    let s =
      convert_cont-IsUnshadowed e [] (λ v. pure (Anf.halt_exp v)) n named (λ m le. refl)
        (Continues-halt [] n) in
    (rw h at s).1
