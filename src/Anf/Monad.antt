-- ===== src/Anf/Monad.antt =====
-- The effects of src/anf.cpp: the static `counter`, and exceptions. A thrown exception leaves the
-- counter as it stands.
use lambcalc_cpp.Base.{ℕ, ◌+◌, ◌≡◌, refl, Str, bytes, ◌++◌, to_string}

pub data Outcome {ℓ} (A : Type ℓ) : Type ℓ where
  done : A → ℕ → Outcome A
  throws : Str → ℕ → Outcome A
  -- a null pointer where the code needs an expression
  null_pointer : Outcome A

abbrev pub M {ℓ} : Type ℓ → Type ℓ
M A = ℕ → Outcome A

abbrev pub bind {ℓ κ} : {A : Type ℓ} {B : Type κ} → Outcome A → (A → M B) → Outcome B
bind (done a n) f = f a n
bind (throws msg n) f = throws msg n
bind null_pointer f = null_pointer

module _ {ℓ κ} {A : Type ℓ} {B : Type κ} where
  infixl 1 ◌>>=◌
  abbrev pub ◌>>=◌ : M A → (A → M B) → M B
  ◌>>=◌ m f n = bind (m n) f

abbrev pub pure {ℓ} : {A : Type ℓ} → A → M A
pure a n = done a n

abbrev pub throw {ℓ} : {A : Type ℓ} → Str → M A
throw msg n = throws msg n

unfoldable pub fresh_name : ℕ → Str
unfolding to_string
fresh_name n = bytes "tmp" ++ to_string n

-- `fresh()`: the name, and the counter moved on.
abbrev pub fresh : M Str
fresh n = done (fresh_name n) (n + 1)

pub bind_assoc {ℓ κ μ} :
    {A : Type ℓ} {B : Type κ} {C : Type μ} (r : Outcome A) (f : A → M B) (g : B → M C)
    → bind (bind r f) g ≡ bind r (λ a n. bind (f a n) g)
bind_assoc (done a n) f g = refl
bind_assoc (throws msg n) f g = refl
bind_assoc null_pointer f g = refl

pub bind_congr {ℓ κ} :
    {A : Type ℓ} {B : Type κ} (r : Outcome A) {f g : A → M B}
    → ((a : A) (n : ℕ) → f a n ≡ g a n)
    → bind r f ≡ bind r g
bind_congr r h = λ i. bind r (λ a n. h a n i)

pub bind-pure {ℓ} : {A : Type ℓ} (r : Outcome A) → bind r pure ≡ r
bind-pure (done a n) = refl
bind-pure (throws msg n) = refl
bind-pure null_pointer = refl
