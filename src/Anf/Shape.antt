-- ===== src/Anf/Shape.antt =====
-- src/anf.cpp: the join points that the conversion makes of conditionals, in functions that have at most
-- one conditional.
use lambcalc_cpp.Base.{
  ℕ, ◌+◌, ◌≤◌, ◌≡◌, refl, ◌∙◌, ap, sym, Bool, true, ◌&&◌, none, some, [], ◌∷◌, Str, bytes, leb,
  arith,
}
use lambcalc_cpp.Ast
use lambcalc_cpp.Anf
use lambcalc_cpp.Anf.{Value, int_value, var_value}
use lambcalc_cpp.Anf.Monad.{
  ◌>>=◌, fresh, pure, fresh_name, Outcome, done, throws, null_pointer, M, bind,
}
use lambcalc_cpp.Anf.Convert.{Cont, convert_cont, convert, string_value, jump_to}
use lambcalc_cpp.Anf.Scoped.{Yields, Yields-bind, string_value-Yields, after_body, after_cond}
use lambcalc_cpp.Rename.Scope.{outline}
use lambcalc_cpp.Rename.Binding.{both}

-- The conditionals of an expression, those in the functions in it left aside.
abbrev pub ifs : Ast.Exp → ℕ
ifs (Ast.int_exp i) = 0
ifs (Ast.var_exp x) = 0
ifs (Ast.lam_exp x body) = 0
ifs (Ast.app_exp fn arg) = ifs fn + ifs arg
ifs (Ast.bop_exp bop a b) = ifs a + ifs b
ifs (Ast.if_exp c t e) = 1 + (ifs c + (ifs t + ifs e))

-- No function of the expression has more than one conditional in its body.
abbrev pub has_few_ifs : Ast.Exp → Bool
has_few_ifs (Ast.int_exp i) = true
has_few_ifs (Ast.var_exp x) = true
has_few_ifs (Ast.lam_exp x body) = leb (ifs body) 1 && has_few_ifs body
has_few_ifs (Ast.app_exp fn arg) = has_few_ifs fn && has_few_ifs arg
has_few_ifs (Ast.bop_exp bop a b) = has_few_ifs a && has_few_ifs b
has_few_ifs (Ast.if_exp c t e) = has_few_ifs c && (has_few_ifs t && has_few_ifs e)

-- Straight code that may end, if `r` is not 0, in a join point with a slot and a branch to it, in whose
-- parts there is none; the functions in it may each end in one.
abbrev pub IsShaped : ℕ → Anf.Exp → Type 0
IsShaped r (Anf.fun_exp name params body rest) = IsShaped 1 body × IsShaped r rest
IsShaped r (Anf.join_exp name (some slot) body (Anf.if_exp cond t e)) =
    (1 ≤ r) × IsShaped 0 body × IsShaped 0 t × IsShaped 0 e
IsShaped r (Anf.app_exp name fun_name param_values rest) = IsShaped r rest
IsShaped r (Anf.bop_exp name bop param1 param2 rest) = IsShaped r rest
IsShaped r (Anf.tuple_exp name values rest) = IsShaped r rest
IsShaped r (Anf.proj_exp name tuple index rest) = IsShaped r rest
IsShaped r (Anf.jump_exp join_name slot_value) = Unit
IsShaped r (Anf.halt_exp value) = Unit
IsShaped r _ = ⊥

IsShaped-weaken : (e : Anf.Exp) (b r : ℕ) → b ≤ r → IsShaped b e → IsShaped r e
IsShaped-weaken (Anf.fun_exp name params body rest) b r le (h, k) =
    (h, IsShaped-weaken rest b r le k)
IsShaped-weaken (Anf.join_exp name none body rest) b r le h = absurd h
IsShaped-weaken (Anf.join_exp name (some slot) body (Anf.if_exp cond t e)) b r le (l, p, q, h) =
    (omega arith, p, q, h)
IsShaped-weaken (Anf.join_exp name (some slot) body _) b r le h = absurd h
IsShaped-weaken (Anf.app_exp name f vs rest) b r le h = IsShaped-weaken rest b r le h
IsShaped-weaken (Anf.bop_exp name bop u v rest) b r le h = IsShaped-weaken rest b r le h
IsShaped-weaken (Anf.tuple_exp name vs rest) b r le h = IsShaped-weaken rest b r le h
IsShaped-weaken (Anf.proj_exp name t i rest) b r le h = IsShaped-weaken rest b r le h
IsShaped-weaken (Anf.jump_exp j v) b r le h = tt
IsShaped-weaken (Anf.halt_exp v) b r le h = tt
IsShaped-weaken (Anf.if_exp cond t e) b r le h = absurd h

Yields-weaken :
    (b r : ℕ) (o : Outcome Anf.Exp) → b ≤ r → Yields (IsShaped b) o → Yields (IsShaped r) o
Yields-weaken b r (done e n) le h = IsShaped-weaken e b r le h
Yields-weaken b r (throws msg n) le h = tt
Yields-weaken b r null_pointer le h = tt

-- The last part, of which the expression is built.
Yields-last :
    (b r : ℕ) (build : Anf.Exp → Anf.Exp) (o : Outcome Anf.Exp)
    → Yields (IsShaped b) o
    → ((e : Anf.Exp) → IsShaped b e → IsShaped r (build e))
    → Yields (IsShaped r) (bind o (λ e. pure (build e)))
Yields-last b r build (done e n) h g = g e h
Yields-last b r build (throws msg n) h g = tt
Yields-last b r build null_pointer h g = tt

-- A continuation whose results have the shape `b` makes a conversion have the shape `r`, where there is
-- room for the conditionals of the expression.
convert_cont-IsShaped :
    (e : Ast.Exp) (k : Cont) (b r : ℕ) (n : ℕ)
    → has_few_ifs e ≡ true
    → ifs e + b ≤ r
    → r ≤ 1
    → ((v : Value) (m : ℕ) → Yields (IsShaped b) (k v m))
    → Yields (IsShaped r) (convert_cont e k n)
unfolding convert_cont
convert_cont-IsShaped (Ast.int_exp i) k b r n few le one h =
    Yields-weaken b r (k (int_value i) n) (omega arith) (h (int_value i) n)
convert_cont-IsShaped (Ast.var_exp x) k b r n few le one h =
    Yields-weaken b r (k (var_value x) n) (omega arith) (h (var_value x) n)
convert_cont-IsShaped (Ast.lam_exp x body) k b r n few le one h =
    let (few_body, fews) = both (leb (ifs body) 1) (has_few_ifs body) few in
    Yields-bind (IsShaped 1) (IsShaped r) (convert_cont body (λ v. pure (Anf.halt_exp v)) n)
      (after_body x k)
      (convert_cont-IsShaped body (λ v. pure (Anf.halt_exp v)) 0 1 n fews (ground arith)
        (omega arith) (λ v m. tt))
      λ body' m s.
        let y = fresh_name m in
        Yields-last b r (Anf.fun_exp y (x ∷ []) body') (k (var_value y) (m + 1)) (h _ (m + 1))
          (λ rest s'. (s, IsShaped-weaken rest b r (omega arith) s'))
convert_cont-IsShaped (Ast.app_exp fn arg) k b r n few le one h =
    let (few_fn, few_arg) = both (has_few_ifs fn) (has_few_ifs arg) few in
    convert_cont-IsShaped fn _ (ifs arg + b) r n few_fn (omega arith) one λ v m.
      let called : Str → M Anf.Exp = λ g. convert_cont arg (λ a. do
        name ← fresh
        rest ← k (var_value name)
        pure (Anf.app_exp name g (a ∷ []) rest)) in
      Yields-bind (λ _. Unit) (IsShaped (ifs arg + b)) (string_value (bytes "function") v m) called
        (string_value-Yields (bytes "function") v m)
        λ g m₁ _.
          convert_cont-IsShaped arg _ b (ifs arg + b) m₁ few_arg (omega arith) (omega arith) λ a m₂.
            let y = fresh_name m₂ in
            Yields-last b b (Anf.app_exp y g (a ∷ [])) (k (var_value y) (m₂ + 1)) (h _ (m₂ + 1))
              (λ e s. s)
convert_cont-IsShaped (Ast.bop_exp bop a a') k b r n few le one h =
    let (few_a, few_b) = both (has_few_ifs a) (has_few_ifs a') few in
    convert_cont-IsShaped a _ (ifs a' + b) r n few_a (omega arith) one λ v m.
      convert_cont-IsShaped a' _ b (ifs a' + b) m few_b (omega arith) (omega arith) λ u m₂.
        let y = fresh_name m₂ in
        Yields-last b b (Anf.bop_exp y bop v u) (k (var_value y) (m₂ + 1)) (h _ (m₂ + 1)) (λ e s. s)
convert_cont-IsShaped (Ast.if_exp c t e) k b r n few le one h =
    let (few_c, fews) = both (has_few_ifs c) (has_few_ifs t && has_few_ifs e) few in
    let (few_t, few_e) = both (has_few_ifs t) (has_few_ifs e) fews in
    convert_cont-IsShaped c _ r r n few_c (omega arith) one λ v m.
      let j = fresh_name m in
      let slot = fresh_name (m + 1) in
      let o = k (var_value slot) (m + 1 + 1) in
      Yields-bind (IsShaped 0) (IsShaped r) o (after_cond v j slot t e)
        (Yields-weaken b 0 o (omega arith) (h _ (m + 1 + 1)))
        λ body m₁ sb.
          Yields-bind (IsShaped 0) (IsShaped r) (convert_cont t (jump_to j) m₁)
            (λ t'. convert_cont e (jump_to j) >>= λ e'.
              pure (Anf.join_exp j (some slot) body (Anf.if_exp v t' e')))
            (convert_cont-IsShaped t (jump_to j) 0 0 m₁ few_t (omega arith) (omega arith)
              (λ u m'. tt))
            λ t' m₂ st.
              Yields-last 0 r (λ e'. Anf.join_exp j (some slot) body (Anf.if_exp v t' e'))
                (convert_cont e (jump_to j) m₂)
                (convert_cont-IsShaped e (jump_to j) 0 0 m₂ few_e (omega arith) (omega arith)
                  (λ u m'. tt))
                (λ e' se. (omega arith, sb, st, se))

pub convert-IsShaped :
    (e : Ast.Exp) (n m : ℕ) (r : Anf.Exp)
    → has_few_ifs e ≡ true
    → ifs e ≤ 1
    → convert e n ≡ done r m
    → IsShaped 1 r
unfolding convert
convert-IsShaped e n m r few le h =
    let s =
      convert_cont-IsShaped e (λ v. pure (Anf.halt_exp v)) 0 1 n few (omega arith) (omega arith)
        (λ v k. tt) in
    rw h at s

-- The names do not matter to these.
ifs-outline : (e : Ast.Exp) → ifs (outline e) ≡ ifs e
ifs-outline (Ast.int_exp i) = refl
ifs-outline (Ast.var_exp x) = refl
ifs-outline (Ast.lam_exp x body) = refl
ifs-outline (Ast.app_exp fn arg) = rw (ifs-outline fn, ifs-outline arg)
ifs-outline (Ast.bop_exp bop a b) = rw (ifs-outline a, ifs-outline b)
ifs-outline (Ast.if_exp c t e) = rw (ifs-outline c, ifs-outline t, ifs-outline e)

has_few_ifs-outline : (e : Ast.Exp) → has_few_ifs (outline e) ≡ has_few_ifs e
has_few_ifs-outline (Ast.int_exp i) = refl
has_few_ifs-outline (Ast.var_exp x) = refl
has_few_ifs-outline (Ast.lam_exp x body) = rw (ifs-outline body, has_few_ifs-outline body)
has_few_ifs-outline (Ast.app_exp fn arg) = rw (has_few_ifs-outline fn, has_few_ifs-outline arg)
has_few_ifs-outline (Ast.bop_exp bop a b) = rw (has_few_ifs-outline a, has_few_ifs-outline b)
has_few_ifs-outline (Ast.if_exp c t e) =
    rw (has_few_ifs-outline c, has_few_ifs-outline t, has_few_ifs-outline e)

pub ifs-same : (e f : Ast.Exp) → outline e ≡ outline f → ifs e ≡ ifs f
ifs-same e f h = sym (ifs-outline e) ∙ ap ifs h ∙ ifs-outline f

pub has_few_ifs-same : (e f : Ast.Exp) → outline e ≡ outline f → has_few_ifs e ≡ has_few_ifs f
has_few_ifs-same e f h = sym (has_few_ifs-outline e) ∙ ap has_few_ifs h ∙ has_few_ifs-outline f
