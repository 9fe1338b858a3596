-- ===== src/Anf/Known.antt =====
-- include/anf.h: names that are known, and expressions that use known names only.
use lambcalc_cpp.Base.{◌≡◌, ◌⊎◌, inl, inr, Option, none, some, List, [], ◌∷◌, Str}
use lambcalc_cpp.Anf
use lambcalc_cpp.Anf.{Var, int_value, var_value, glob_value}

abbrev pub Names : Type 1
Names = Str → Type 0

abbrev pub extend : Var → Names → Names
extend x K y = (y ≡ x) ⊎ K y

abbrev pub IsKnown : Names → Anf.Value → Type 0
IsKnown K (int_value i) = Unit
IsKnown K (var_value x) = K x
IsKnown K (glob_value x) = Unit

abbrev pub AreKnown : Names → List Anf.Value → Type 0
AreKnown K [] = Unit
AreKnown K (v ∷ vs) = IsKnown K v × AreKnown K vs

abbrev pub extend_slot : Option Var → Names → Names
extend_slot none K = K
extend_slot (some x) K = extend x K

abbrev pub extend_all : List Var → Names → Names
extend_all [] K = K
extend_all (x ∷ xs) K = extend_all xs (extend x K)

-- Each variable that is used is one of `K` or bound before, in the same function; a function's body uses
-- none but the function's parameters and what it binds.
abbrev pub IsClosed : Names → Anf.Exp → Type 0
IsClosed K (Anf.fun_exp name params body rest) =
    IsClosed (extend_all params (λ x. ⊥)) body × IsClosed K rest
IsClosed K (Anf.join_exp name slot body rest) = IsClosed (extend_slot slot K) body × IsClosed K rest
IsClosed K (Anf.jump_exp join_name none) = Unit
IsClosed K (Anf.jump_exp join_name (some v)) = IsKnown K v
IsClosed K (Anf.app_exp name fun_name param_values rest) =
    K fun_name × AreKnown K param_values × IsClosed (extend name K) rest
IsClosed K (Anf.bop_exp name bop param1 param2 rest) =
    IsKnown K param1 × IsKnown K param2 × IsClosed (extend name K) rest
IsClosed K (Anf.if_exp cond t e) = IsKnown K cond × IsClosed K t × IsClosed K e
IsClosed K (Anf.tuple_exp name values rest) = AreKnown K values × IsClosed (extend name K) rest
IsClosed K (Anf.proj_exp name tuple index rest) = K tuple × IsClosed (extend name K) rest
IsClosed K (Anf.halt_exp value) = IsKnown K value

pub extend_all-left : (xs : List Var) (K : Names) (x : Str) → K x → extend_all xs K x
extend_all-left [] K x k = k
extend_all-left (y ∷ xs) K x k = extend_all-left xs (extend y K) x (inr k)

pub IsKnown-weaken :
    (v : Anf.Value) (K P : Names) → ((x : Str) → K x → P x) → IsKnown K v → IsKnown P v
IsKnown-weaken (int_value i) K P h k = tt
IsKnown-weaken (var_value x) K P h k = h x k
IsKnown-weaken (glob_value x) K P h k = tt

pub AreKnown-weaken :
    (vs : List Anf.Value) (K P : Names) → ((x : Str) → K x → P x) → AreKnown K vs → AreKnown P vs
AreKnown-weaken [] K P h k = tt
AreKnown-weaken (v ∷ vs) K P h (k, ks) = (IsKnown-weaken v K P h k, AreKnown-weaken vs K P h ks)

pub extend-weaken :
    (y : Var) (K P : Names) → ((x : Str) → K x → P x) → (x : Str) → extend y K x → extend y P x
extend-weaken y K P h x (inl e) = inl e
extend-weaken y K P h x (inr k) = inr (h x k)

extend_slot-weaken :
    (slot : Option Var) (K P : Names)
    → ((x : Str) → K x → P x)
    → (x : Str) → extend_slot slot K x
    → extend_slot slot P x
extend_slot-weaken none K P h x k = h x k
extend_slot-weaken (some y) K P h x k = extend-weaken y K P h x k

-- More names may be known.
pub IsClosed-weaken :
    (e : Anf.Exp) (K P : Names) → ((x : Str) → K x → P x) → IsClosed K e → IsClosed P e
IsClosed-weaken (Anf.fun_exp name params body rest) K P h (b, r) = (b, IsClosed-weaken rest K P h r)
IsClosed-weaken (Anf.join_exp name slot body rest) K P h (b, r) = (
  IsClosed-weaken body (extend_slot slot K) (extend_slot slot P) (extend_slot-weaken slot K P h) b,
  IsClosed-weaken rest K P h r,
)
IsClosed-weaken (Anf.jump_exp j none) K P h k = tt
IsClosed-weaken (Anf.jump_exp j (some v)) K P h k = IsKnown-weaken v K P h k
IsClosed-weaken (Anf.app_exp name f vs rest) K P h (g, ks, r) = (
  h f g,
  AreKnown-weaken vs K P h ks,
  IsClosed-weaken rest (extend name K) (extend name P) (extend-weaken name K P h) r,
)
IsClosed-weaken (Anf.bop_exp name bop u v rest) K P h (k, l, r) = (
  IsKnown-weaken u K P h k,
  IsKnown-weaken v K P h l,
  IsClosed-weaken rest (extend name K) (extend name P) (extend-weaken name K P h) r,
)
IsClosed-weaken (Anf.if_exp cond t e) K P h (k, ht, he) =
    (IsKnown-weaken cond K P h k, IsClosed-weaken t K P h ht, IsClosed-weaken e K P h he)
IsClosed-weaken (Anf.tuple_exp name vs rest) K P h (ks, r) = (
  AreKnown-weaken vs K P h ks,
  IsClosed-weaken rest (extend name K) (extend name P) (extend-weaken name K P h) r,
)
IsClosed-weaken (Anf.proj_exp name t i rest) K P h (k, r) =
    (h t k, IsClosed-weaken rest (extend name K) (extend name P) (extend-weaken name K P h) r)
IsClosed-weaken (Anf.halt_exp v) K P h k = IsKnown-weaken v K P h k
