-- ===== src/Anf/Scoped.antt =====
-- include/anf.h: the scope of a join point, and that src/anf.cpp respects it.
use lambcalc_cpp.Base.{bytes, ◌≡◌, refl, ◌⊎◌, inl, Str, ℕ, ◌+◌, some, [], ◌∷◌}
use lambcalc_cpp.Ast
use lambcalc_cpp.Anf
use lambcalc_cpp.Anf.{Value, var_value}
use lambcalc_cpp.Anf.Monad.{
  ◌>>=◌, fresh, pure, fresh_name, Outcome, done, throws, null_pointer, M, bind,
}
use lambcalc_cpp.Anf.Convert.{Cont, convert_cont, convert, string_value, jump_to}

-- Each jump goes to a join point around it, in the same function, or satisfies `P`.
abbrev pub IsScoped : (Str → Type 0) → Anf.Exp → Type 0
IsScoped P (Anf.fun_exp name params body rest) = IsScoped (λ _. ⊥) body × IsScoped P rest
IsScoped P (Anf.join_exp name slot body rest) =
    IsScoped P body × IsScoped (λ x. (x ≡ name) ⊎ P x) rest
IsScoped P (Anf.jump_exp join_name slot_value) = P join_name
IsScoped P (Anf.if_exp cond t e) = IsScoped P t × IsScoped P e
IsScoped P (Anf.bop_exp name bop param1 param2 rest) = IsScoped P rest
IsScoped P (Anf.app_exp name fun_name param_values rest) = IsScoped P rest
IsScoped P (Anf.tuple_exp name values rest) = IsScoped P rest
IsScoped P (Anf.proj_exp name tuple index rest) = IsScoped P rest
IsScoped P (Anf.halt_exp value) = Unit

-- A result satisfies `Q`, if there is one.
abbrev pub Yields : {A : Type 0} → (A → Type 0) → Outcome A → Type 0
Yields Q (done a n) = Q a
Yields Q (throws msg n) = Unit
Yields Q null_pointer = Unit

pub Yields-bind :
    {A B : Type 0} (Q : A → Type 0) (R : B → Type 0) (o : Outcome A) (f : A → M B)
    → Yields Q o
    → ((a : A) (n : ℕ) → Q a → Yields R (f a n))
    → Yields R (bind o f)
Yields-bind Q R (done a n) f h k = k a n h
Yields-bind Q R (throws msg n) f h k = tt
Yields-bind Q R null_pointer f h k = tt

pub string_value-Yields :
    (lit : Str) (v : Value) (m : ℕ) → Yields (λ _. Unit) (string_value lit v m)
string_value-Yields lit (Anf.int_value i) m = tt
string_value-Yields lit (Anf.var_value x) m = tt
string_value-Yields lit (Anf.glob_value x) m = tt

-- The last part, of which the expression is built.
Yields-build :
    (P Q : Str → Type 0) (build : Anf.Exp → Anf.Exp) (o : Outcome Anf.Exp)
    → Yields (IsScoped Q) o
    → ((r : Anf.Exp) → IsScoped Q r → IsScoped P (build r))
    → Yields (IsScoped P) (bind o (λ r. pure (build r)))
Yields-build P Q build (done r n) h g = g r h
Yields-build P Q build (throws msg n) h g = tt
Yields-build P Q build null_pointer h g = tt

-- The conversion after a part of the expression.
abbrev pub after_body : Str → Cont → Anf.Exp → M Anf.Exp
after_body x k body = do
  name ← fresh
  rest ← k (var_value name)
  pure (Anf.fun_exp name (x ∷ []) body rest)

abbrev pub after_cond : Value → Str → Str → Ast.Exp → Ast.Exp → Anf.Exp → M Anf.Exp
after_cond v j slot t f body = do
  t' ← convert_cont t (jump_to j)
  f' ← convert_cont f (jump_to j)
  pure (Anf.join_exp j (some slot) body (Anf.if_exp v t' f'))

-- Under a continuation that respects the scope, a conversion does.
convert_cont-IsScoped :
    (e : Ast.Exp) (P : Str → Type 0) (k : Cont)
    → ((v : Value) (n : ℕ) → Yields (IsScoped P) (k v n))
    → (n : ℕ) → Yields (IsScoped P) (convert_cont e k n)
unfolding convert_cont
convert_cont-IsScoped (Ast.int_exp i) P k h n = h _ n
convert_cont-IsScoped (Ast.var_exp x) P k h n = h _ n
convert_cont-IsScoped (Ast.lam_exp x body) P k h n =
    Yields-bind (IsScoped (λ _. ⊥)) (IsScoped P) (convert_cont body (λ v. pure (Anf.halt_exp v)) n)
      (after_body x k)
      (convert_cont-IsScoped body (λ _. ⊥) (λ v. pure (Anf.halt_exp v)) (λ v m. tt) n)
      λ b m s.
        let y = fresh_name m in
        Yields-build P P (Anf.fun_exp y (x ∷ []) b) (k (var_value y) (m + 1)) (h _ _)
          (λ r s'. (s, s'))
convert_cont-IsScoped (Ast.app_exp fn arg) P k h n =
    convert_cont-IsScoped fn P _
      (λ v m.
        let called : Str → M Anf.Exp = λ g.
          convert_cont arg
            λ a. do name ← fresh; rest ← k (var_value name); pure (Anf.app_exp name g (a ∷ []) rest)
        in Yields-bind (λ _. Unit) (IsScoped P) (string_value (bytes "function") v m) called
          (string_value-Yields (bytes "function") v m)
          λ g m₁ _.
            convert_cont-IsScoped arg P _
              (λ a m₂.
                let y = fresh_name m₂ in
                Yields-build P P (Anf.app_exp y g (a ∷ [])) (k (var_value y) (m₂ + 1)) (h _ _)
                  (λ r s. s))
              m₁)
      n
convert_cont-IsScoped (Ast.bop_exp bop a b) P k h n =
    convert_cont-IsScoped a P _
      (λ v m.
        convert_cont-IsScoped b P _
          (λ u m₁.
            let y = fresh_name m₁ in
            Yields-build P P (Anf.bop_exp y bop v u) (k (var_value y) (m₁ + 1)) (h _ _) (λ r s. s))
          m)
      n
convert_cont-IsScoped (Ast.if_exp c t f) P k h n =
    convert_cont-IsScoped c P _
      (λ v m.
        let j = fresh_name m in
        let slot = fresh_name (m + 1) in
        let Q : Str → Type 0 = λ x. (x ≡ j) ⊎ P x in
        Yields-bind (IsScoped P) (IsScoped P) (k (var_value slot) (m + 1 + 1))
          (after_cond v j slot t f) (h _ _)
          λ b m₁ sb.
            Yields-bind (IsScoped Q) (IsScoped P) (convert_cont t (jump_to j) m₁)
              (λ t'. convert_cont f (jump_to j) >>= λ f'.
                pure (Anf.join_exp j (some slot) b (Anf.if_exp v t' f')))
              (convert_cont-IsScoped t Q (jump_to j) (λ u m'. inl refl) m₁)
              λ t' m₂ st.
                Yields-build P Q (λ f'. Anf.join_exp j (some slot) b (Anf.if_exp v t' f'))
                  (convert_cont f (jump_to j) m₂)
                  (convert_cont-IsScoped f Q (jump_to j) (λ u m'. inl refl) m₂)
                  (λ f' sf. (sb, (st, sf))))
      n

-- In the result of a conversion each jump goes to a join point around it in the same function.
pub convert-IsScoped :
    (e : Ast.Exp) (n m : ℕ) (r : Anf.Exp) → convert e n ≡ done r m → IsScoped (λ _. ⊥) r
unfolding convert
convert-IsScoped e n m r h =
    let s = convert_cont-IsScoped e (λ _. ⊥) (λ v. pure (Anf.halt_exp v)) (λ v k. tt) n in rw h at s
