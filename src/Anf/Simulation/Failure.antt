-- ===== src/Anf/Simulation/Failure.antt =====
-- Outcomes that are exceptions, and the agreement of two outcomes up to the exception raised.
use lambcalc_cpp.Base.{ℕ, ◌+◌, ◌≡◌, refl, Str, bytes, [], ◌∷◌, some, ◌⊎◌, inl, inr}
use lambcalc_cpp.Ast
use lambcalc_cpp.Anf
use lambcalc_cpp.Anf.{Value, int_value, var_value, glob_value}
use lambcalc_cpp.Anf.Monad.{Outcome, done, throws, null_pointer, M, bind, ◌>>=◌, pure, fresh}
use lambcalc_cpp.Anf.Convert.{Cont, convert_cont, string_value, jump_to}

-- Only integers and variables are handed to a continuation.
abbrev pub IsLocal : Value → Type 0
IsLocal (glob_value g) = ⊥
IsLocal _ = Unit

-- `o` is the outcome `expected`, or both are exceptions.
abbrev pub Agrees : Outcome Anf.Exp → Outcome Anf.Exp → Type 0
Agrees (throws _ _) (throws _ _) = Unit
Agrees (throws _ _) _ = ⊥
Agrees expected o = o ≡ expected

pub Agrees-refl : (o : Outcome Anf.Exp) → Agrees o o
Agrees-refl (throws _ _) = tt
Agrees-refl (done _ _) = refl
Agrees-refl null_pointer = refl

pub Agrees-trans : (a b c : Outcome Anf.Exp) → Agrees a b → Agrees b c → Agrees a c
Agrees-trans (throws _ _) (throws _ _) c p q = q
Agrees-trans (throws _ _) (done _ _) c p q = absurd p
Agrees-trans (throws _ _) null_pointer c p q = absurd p
Agrees-trans (done _ _) b c p q = rw p at q
Agrees-trans null_pointer b c p q = rw p at q

pub Agrees-of_eq : {a b : Outcome Anf.Exp} → a ≡ b → Agrees a b
Agrees-of_eq {a} p = rw (← p) (Agrees-refl a)

abbrev pub IsThrown : Outcome Anf.Exp → Type 0
IsThrown (throws _ _) = Unit
IsThrown _ = ⊥

pub IsThrown-bind :
    (o : Outcome Anf.Exp) (f : Anf.Exp → M Anf.Exp) → IsThrown o → IsThrown (bind o f)
IsThrown-bind (throws _ _) f h = tt
IsThrown-bind (done _ _) f h = absurd h
IsThrown-bind null_pointer f h = absurd h

abbrev pub IsNotNull : Outcome Anf.Exp → Type 0
IsNotNull null_pointer = ⊥
IsNotNull _ = Unit

module _ (f : Anf.Exp → M Anf.Exp) where
  pub IsNotNull-bind :
      (o : Outcome Anf.Exp)
      → IsNotNull o
      → ((e : Anf.Exp) (n : ℕ) → IsNotNull (f e n))
      → IsNotNull (bind o f)
  IsNotNull-bind (done e n) p q = q e n
  IsNotNull-bind (throws msg n) p q = tt
  IsNotNull-bind null_pointer p q = absurd p

  pub bind-IsThrown :
      (o : Outcome Anf.Exp)
      → IsNotNull o
      → ((e : Anf.Exp) (n : ℕ) → IsThrown (f e n))
      → IsThrown (bind o f)
  bind-IsThrown (done e n) p q = q e n
  bind-IsThrown (throws msg n) p q = tt
  bind-IsThrown null_pointer p q = absurd p

-- The continuation of the argument of an application, or of the second operand.
pub IsNotNull-named :
    (k : Cont) (node : Str → Anf.Exp → Anf.Exp)
    → ((v : Value) (n : ℕ) → IsNotNull (k v n))
    → (n : ℕ) → IsNotNull ((do name ← fresh; rest ← k (var_value name); pure (node name rest)) n)
IsNotNull-named k node h n = IsNotNull-bind _ (k _ (n + 1)) (h _ (n + 1)) (λ _ _. tt)

pub IsThrown-named :
    (k : Cont) (node : Str → Anf.Exp → Anf.Exp)
    → ((v : Value) (n : ℕ) → IsThrown (k v n))
    → (n : ℕ) → IsThrown ((do name ← fresh; rest ← k (var_value name); pure (node name rest)) n)
IsThrown-named k node h n = IsThrown-bind (k _ (n + 1)) _ (h _ (n + 1))

-- The continuation of the function of an application.
pub IsNotNull-called :
    (k : Str → M Anf.Exp)
    → ((f : Str) (n : ℕ) → IsNotNull (k f n))
    → (v : Value) (n : ℕ) → IsNotNull ((string_value (bytes "function") v >>= k) n)
IsNotNull-called k h (int_value i) n = tt
IsNotNull-called k h (var_value f) n = h f n
IsNotNull-called k h (glob_value f) n = h f n

pub IsThrown-called :
    (k : Str → M Anf.Exp)
    → ((f : Str) (n : ℕ) → IsThrown (k f n))
    → (v : Value) (n : ℕ) → IsThrown ((string_value (bytes "function") v >>= k) n)
IsThrown-called k h (int_value i) n = tt
IsThrown-called k h (var_value f) n = h f n
IsThrown-called k h (glob_value f) n = h f n

-- A conversion meets no null pointer if its continuation meets none.
pub convert_cont-IsNotNull :
    (e : Ast.Exp) (k : Cont)
    → ((v : Value) (n : ℕ) → IsNotNull (k v n))
    → (n : ℕ) → IsNotNull (convert_cont e k n)
unfolding convert_cont
convert_cont-IsNotNull (Ast.int_exp i) k h n = h _ n
convert_cont-IsNotNull (Ast.var_exp x) k h n = h _ n
convert_cont-IsNotNull (Ast.lam_exp param body) k h n =
    IsNotNull-bind _ (convert_cont body _ n) (convert_cont-IsNotNull body _ (λ v m. tt) n)
      (λ e m. IsNotNull-bind _ (k _ (m + 1)) (h _ (m + 1)) (λ e' m'. tt))
convert_cont-IsNotNull (Ast.app_exp fn arg) k h n =
    convert_cont-IsNotNull fn _
      (IsNotNull-called _ λ f.
        convert_cont-IsNotNull arg _ (λ v. IsNotNull-named k (λ x. Anf.app_exp x f (v ∷ [])) h))
      n
convert_cont-IsNotNull (Ast.bop_exp bop arg1 arg2) k h n =
    convert_cont-IsNotNull arg1 _
      (λ v. convert_cont-IsNotNull arg2 _ (λ w. IsNotNull-named k (λ x. Anf.bop_exp x bop v w) h)) n
convert_cont-IsNotNull (Ast.if_exp c t f) k h n =
    convert_cont-IsNotNull c _
      (λ v m. IsNotNull-bind _ (k _ (m + 1 + 1)) (h _ (m + 1 + 1)) λ e m₁.
        IsNotNull-bind _ (convert_cont t _ m₁) (convert_cont-IsNotNull t _ (λ _ _. tt) m₁) λ e m₂.
          IsNotNull-bind _ (convert_cont f _ m₂) (convert_cont-IsNotNull f _ (λ _ _. tt) m₂)
            λ _ _. tt)
      n

-- The continuation of the condition of an `if`.
pub IsNotNull-joined :
    (k : Cont) (t f : Ast.Exp) (c : Value)
    → ((v : Value) (n : ℕ) → IsNotNull (k v n))
    → (n : ℕ)
    → IsNotNull (
        (do
          join_name ← fresh
          slot ← fresh
          body ← k (var_value slot)
          then_exp ← convert_cont t (jump_to join_name)
          else_exp ← convert_cont f (jump_to join_name)
          pure (Anf.join_exp join_name (some slot) body (Anf.if_exp c then_exp else_exp)))
          n)
IsNotNull-joined k t f c h m = IsNotNull-bind _ (k _ (m + 1 + 1)) (h _ (m + 1 + 1)) λ e m₁.
    IsNotNull-bind _ (convert_cont t _ m₁) (convert_cont-IsNotNull t _ (λ _ _. tt) m₁) λ e m₂.
      IsNotNull-bind _ (convert_cont f _ m₂) (convert_cont-IsNotNull f _ (λ _ _. tt) m₂) λ _ _. tt

-- Both branches of an `if`, one of which throws.
pub branches-IsThrown :
    (t f : Ast.Exp) (j : Str) (node : Anf.Exp → Anf.Exp → Anf.Exp) (n : ℕ)
    → IsThrown (convert_cont t (jump_to j) n) ⊎ ((m : ℕ) → IsThrown (convert_cont f (jump_to j) m))
    → IsThrown (
        (do
          then_exp ← convert_cont t (jump_to j)
          else_exp ← convert_cont f (jump_to j)
          pure (node then_exp else_exp))
          n)
branches-IsThrown t f j node n (inl bad_t) = IsThrown-bind (convert_cont t _ n) _ bad_t
branches-IsThrown t f j node n (inr bad_f) =
    bind-IsThrown _ (convert_cont t _ n) (convert_cont-IsNotNull t _ (λ _ _. tt) n)
      (λ e m. IsThrown-bind (convert_cont f _ m) _ (bad_f m))

-- A conversion whose continuation always throws, throws.
pub convert_cont-IsThrown :
    (e : Ast.Exp) (k : Cont)
    → ((v : Value) (n : ℕ) → IsThrown (k v n))
    → (n : ℕ) → IsThrown (convert_cont e k n)
unfolding convert_cont
convert_cont-IsThrown (Ast.int_exp i) k h n = h _ n
convert_cont-IsThrown (Ast.var_exp x) k h n = h _ n
convert_cont-IsThrown (Ast.lam_exp param body) k h n =
    bind-IsThrown _ (convert_cont body _ n) (convert_cont-IsNotNull body _ (λ v m. tt) n)
      (λ e m. IsThrown-bind (k _ (m + 1)) _ (h _ (m + 1)))
convert_cont-IsThrown (Ast.app_exp fn arg) k h n =
    convert_cont-IsThrown fn _
      (IsThrown-called _
        λ f. convert_cont-IsThrown arg _ (λ v. IsThrown-named k (λ x. Anf.app_exp x f (v ∷ [])) h))
      n
convert_cont-IsThrown (Ast.bop_exp bop arg1 arg2) k h n =
    convert_cont-IsThrown arg1 _
      (λ v. convert_cont-IsThrown arg2 _ (λ w. IsThrown-named k (λ x. Anf.bop_exp x bop v w) h)) n
convert_cont-IsThrown (Ast.if_exp c t f) k h n =
    convert_cont-IsThrown c _ (λ v m. IsThrown-bind (k _ (m + 1 + 1)) _ (h _ (m + 1 + 1))) n

pub Agrees-of_IsThrown : (o o' : Outcome Anf.Exp) → IsThrown o → IsThrown o' → Agrees o o'
Agrees-of_IsThrown (throws _ _) (throws _ _) h h' = tt
Agrees-of_IsThrown (throws _ _) (done _ _) h h' = h'
Agrees-of_IsThrown (throws _ _) null_pointer h h' = h'
Agrees-of_IsThrown (done _ _) o' h h' = absurd h
Agrees-of_IsThrown null_pointer o' h h' = absurd h
