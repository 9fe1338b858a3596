-- ===== src/Anf/Success.antt =====
-- src/anf.cpp: when a conversion succeeds, and how many names it draws.
use lambcalc_cpp.Base.{
  and-eq-false, inl, inr, ℕ, Str, ◌+◌, ◌≡◌, ◌∙◌, ap, refl, Bool, true, false, ◌&&◌, not, [], ◌∷◌,
  Option, some, arith,
}
use mathlib.Core.Bool.{and-eq-true_iff}
use lambcalc_cpp.Ast
use lambcalc_cpp.Anf
use lambcalc_cpp.Anf.{Value, int_value, var_value, glob_value}
use lambcalc_cpp.Anf.Monad.{Outcome, done, throws, null_pointer, M, ◌>>=◌, pure, fresh, fresh_name}
use lambcalc_cpp.Anf.Convert.{Cont, convert_cont, convert, jump_to}
use lambcalc_cpp.Anf.Defunc.{convert_defunc}
use lambcalc_cpp.Anf.Simulation.Failure.{
  Agrees, IsThrown, IsNotNull, IsThrown-bind, bind-IsThrown, IsNotNull-named, IsNotNull-called,
  IsThrown-called, IsNotNull-joined, branches-IsThrown, convert_cont-IsThrown,
  convert_cont-IsNotNull,
}
use lambcalc_cpp.Anf.Equivalence.{Ends, convert_defunc-Agrees}

abbrev pub is_literal : Ast.Exp → Bool
is_literal (Ast.int_exp i) = true
is_literal _ = false

-- No application has an integer literal for its function.
unfoldable pub calls_no_literal : Ast.Exp → Bool
calls_no_literal (Ast.int_exp i) = true
calls_no_literal (Ast.var_exp x) = true
calls_no_literal (Ast.lam_exp param body) = calls_no_literal body
calls_no_literal (Ast.app_exp fn arg) =
    not (is_literal fn) && (calls_no_literal fn && calls_no_literal arg)
calls_no_literal (Ast.bop_exp bop arg1 arg2) = calls_no_literal arg1 && calls_no_literal arg2
calls_no_literal (Ast.if_exp c t f) =
    calls_no_literal c && (calls_no_literal t && calls_no_literal f)

-- The names that a conversion draws from the counter.
abbrev pub names_drawn : Ast.Exp → ℕ
names_drawn (Ast.int_exp i) = 0
names_drawn (Ast.var_exp x) = 0
names_drawn (Ast.lam_exp param body) = names_drawn body + 1
names_drawn (Ast.app_exp fn arg) = names_drawn fn + names_drawn arg + 1
names_drawn (Ast.bop_exp bop arg1 arg2) = names_drawn arg1 + names_drawn arg2 + 1
names_drawn (Ast.if_exp c t f) = names_drawn c + names_drawn t + names_drawn f + 2

-- The computation returns, having drawn `c` names.
abbrev Draws : ℕ → M Anf.Exp → Type 0
Draws c m = (n : ℕ) → (e : Anf.Exp) × (n' : ℕ) × (m n ≡ done e n') × (n' ≡ n + c)

-- A value that the conversion of the expression may hand to its continuation.
abbrev Gives : Ast.Exp → Value → Type 0
Gives e (var_value x) = Unit
Gives e (int_value i) = is_literal e ≡ true
Gives e (glob_value g) = ⊥

Draws-named :
    (k : Cont) (c : ℕ) (node : Str → Anf.Exp → Anf.Exp)
    → ((x : Str) → Draws c (k (var_value x)))
    → Draws (c + 1) (do name ← fresh; rest ← k (var_value name); pure (node name rest))
Draws-named k c node h n =
    let (r, m, p, q) = h (fresh_name n) (n + 1) in (node (fresh_name n) r, m, rw p, omega arith)

Draws-pure : (e : Anf.Exp) → Draws 0 (pure e)
Draws-pure e n = (e, n, refl, omega arith)

Draws-of_eq : {c d : ℕ} {m : M Anf.Exp} → c ≡ d → Draws c m → Draws d m
Draws-of_eq e h n = let (r, n', p, q) = h n in (r, n', p, omega arith)

convert_cont-Draws :
    (e : Ast.Exp) (k : Cont) (c : ℕ)
    → calls_no_literal e ≡ true
    → ((v : Value) → Gives e v → Draws c (k v))
    → Draws (names_drawn e + c) (convert_cont e k)
unfolding convert_cont calls_no_literal
convert_cont-Draws (Ast.int_exp i) k c ok h = Draws-of_eq (omega arith) (h (int_value i) refl)
convert_cont-Draws (Ast.var_exp x) k c ok h = Draws-of_eq (omega arith) (h (var_value x) tt)
convert_cont-Draws (Ast.lam_exp param body) k c ok h = λ n.
    let (b, m, p, q) = convert_cont-Draws body _ 0 ok (λ v _. Draws-pure (Anf.halt_exp v)) n in
    let (r, m', p', q') = h (var_value (fresh_name m)) tt (m + 1) in
    (Anf.fun_exp (fresh_name m) (param ∷ []) b r, m', rw (p, p'), omega arith)
convert_cont-Draws (Ast.app_exp fn arg) k c ok h =
    let (not_literal, oks) =
      (and-eq-true_iff (not (is_literal fn)) (calls_no_literal fn && calls_no_literal arg)).0 ok in
    let (ok_fn, ok_arg) = (and-eq-true_iff (calls_no_literal fn) (calls_no_literal arg)).0 oks in
    Draws-of_eq (omega arith) (
      convert_cont-Draws fn _ (names_drawn arg + (c + 1)) ok_fn (elim [
        | int_value i ↦ λ lit. ground arith
        | var_value f ↦ λ _.
            convert_cont-Draws arg _ (c + 1) ok_arg
              (λ v _. Draws-named k c (λ x. Anf.app_exp x f (v ∷ [])) (λ x. h (var_value x) tt))
        | glob_value g ↦ λ l. absurd l
      ]))
convert_cont-Draws (Ast.bop_exp bop arg1 arg2) k c ok h =
    let (ok1, ok2) = (and-eq-true_iff _ _).0 ok in
    Draws-of_eq (omega arith) (
      convert_cont-Draws arg1 _ (names_drawn arg2 + (c + 1)) ok1 (λ v _.
        convert_cont-Draws arg2 _ (c + 1) ok2
          (λ w _. Draws-named k c (λ x. Anf.bop_exp x bop v w) (λ x. h (var_value x) tt))))
convert_cont-Draws (Ast.if_exp a t f) k c ok h =
    let (ok_a, oks) = (and-eq-true_iff _ _).0 ok in
    let (ok_t, ok_f) = (and-eq-true_iff _ _).0 oks in
    Draws-of_eq (omega arith) (
      convert_cont-Draws a _ (c + (names_drawn t + (names_drawn f + 2))) ok_a (λ v _ n.
        let (r, m, p, q) = h (var_value (fresh_name (n + 1))) tt (n + 1 + 1) in
        let (t', m', p', q') =
          convert_cont-Draws t (jump_to (fresh_name n)) 0 ok_t (λ v _ n. (_, n, refl, omega arith))
            m in
        let (f', m'', p'', q'') =
          convert_cont-Draws f (jump_to (fresh_name n)) 0 ok_f (λ v _ n. (_, n, refl, omega arith))
            m' in
        (
          Anf.join_exp (fresh_name n) (some (fresh_name (n + 1))) r (Anf.if_exp v t' f'),
          m'',
          rw (p, p', p''),
          omega arith,
        )))

-- A literal that is called makes the conversion throw, whatever is to be done with its result.
convert_cont-throws :
    (e : Ast.Exp) (k : Cont) (n : ℕ)
    → ((v : Value) (n : ℕ) → IsNotNull (k v n))
    → calls_no_literal e ≡ false
    → IsThrown (convert_cont e k n)
unfolding convert_cont calls_no_literal
convert_cont-throws (Ast.int_exp i) k n h bad = cc
convert_cont-throws (Ast.var_exp x) k n h bad = cc
convert_cont-throws (Ast.lam_exp param body) k n h bad =
    IsThrown-bind (convert_cont body _ n) _ (convert_cont-throws body _ n (λ _ _. tt) bad)
convert_cont-throws (Ast.app_exp (Ast.int_exp i) arg) k n h bad = tt
convert_cont-throws (Ast.app_exp fn arg) k n h bad = elim (and-eq-false _ _ bad) [
  | inl bad_fn ↦
      convert_cont-throws fn _ n
        (IsNotNull-called _ λ f.
          convert_cont-IsNotNull arg _ (λ v. IsNotNull-named k (λ x. Anf.app_exp x f (v ∷ [])) h))
        bad_fn
  | inr bad_arg ↦
      convert_cont-IsThrown fn _
        (IsThrown-called _ λ f m.
          convert_cont-throws arg _ m (λ v. IsNotNull-named k (λ x. Anf.app_exp x f (v ∷ [])) h)
            bad_arg)
        n
]
convert_cont-throws (Ast.bop_exp bop arg1 arg2) k n h bad = elim (and-eq-false _ _ bad) [
  | inl bad1 ↦
      convert_cont-throws arg1 _ n
        (λ v. convert_cont-IsNotNull arg2 _ (λ w. IsNotNull-named k (λ x. Anf.bop_exp x bop v w) h))
        bad1
  | inr bad2 ↦
      convert_cont-IsThrown arg1 _
        (λ v m.
          convert_cont-throws arg2 _ m (λ w. IsNotNull-named k (λ x. Anf.bop_exp x bop v w) h) bad2)
        n
]
convert_cont-throws (Ast.if_exp a t f) k n h bad = elim (and-eq-false _ _ bad) [
  | inl bad_a ↦ convert_cont-throws a _ n (λ v. IsNotNull-joined k t f v h) bad_a
  | inr bad_branch ↦
      convert_cont-IsThrown a _
        (λ v m. bind-IsThrown _ (k _ (m + 1 + 1)) (h _ (m + 1 + 1)) λ e m₁.
          branches-IsThrown t f (fresh_name m)
            (λ e₁ e₂.
              Anf.join_exp (fresh_name m) (some (fresh_name (m + 1))) e (Anf.if_exp v e₁ e₂))
            m₁
            (elim (and-eq-false _ _ bad_branch) [
              | inl bad_t ↦ inl (convert_cont-throws t _ m₁ (λ _ _. tt) bad_t)
              | inr bad_f ↦ inr (λ m₂. convert_cont-throws f _ m₂ (λ _ _. tt) bad_f)
            ]))
        n
]

Ends-done :
    (r : Option (Outcome Anf.Exp)) (x : Outcome Anf.Exp) (e : Anf.Exp) (n : ℕ)
    → Ends r x
    → x ≡ done e n
    → r ≡ some (done e n)
Ends-done r x e n (o, p, a) q = let b : o ≡ done e n = rw q at a in p ∙ ap some b

thrown :
    (x o : Outcome Anf.Exp) → Agrees x o → IsThrown x → (msg : Str) × (m : ℕ) × (o ≡ throws msg m)
thrown (throws _ _) (throws msg m) a h = (msg, m, refl)
thrown (throws _ _) (done _ _) a h = absurd a
thrown (throws _ _) null_pointer a h = absurd a
thrown (done _ _) o a h = absurd h
thrown null_pointer o a h = absurd h

-- If no application has an integer literal for its function, the loop of `convertDefunc` ends
-- within its bound and returns an expression, and the counter has moved on by `names_drawn`.
pub convert_defunc-returns :
    (root : Ast.Exp) (n : ℕ)
    → calls_no_literal root ≡ true
    → (e : Anf.Exp) × (convert_defunc root n ≡ some (done e (n + names_drawn root)))
unfolding convert
convert_defunc-returns root n ok =
    let (e, m, q, r) = convert_cont-Draws root _ 0 ok (λ v _. Draws-pure (Anf.halt_exp v)) n in
    let end : m ≡ n + names_drawn root = omega arith in
    (e, Ends-done _ (convert root n) e _ (convert_defunc-Agrees root n) (q ∙ ap (done e) end))

-- If some application has an integer literal for its function, the loop of `convertDefunc` ends
-- within its bound by an exception.
pub convert_defunc-throws :
    (root : Ast.Exp) (n : ℕ)
    → calls_no_literal root ≡ false
    → (msg : Str) × (m : ℕ) × (convert_defunc root n ≡ some (throws msg m))
unfolding convert
convert_defunc-throws root n bad =
    let (o, p, a) = convert_defunc-Agrees root n in
    let (msg, m, q) = thrown (convert root n) o a (convert_cont-throws root _ n (λ _ _. tt) bad) in
    (msg, m, p ∙ ap some q)
