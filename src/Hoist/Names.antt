-- ===== src/Hoist/Names.antt =====
-- src/hoist.cpp: functions that have distinct names in a program are hoisted under distinct names.
use lambcalc_cpp.Base.{
  ℕ, ◌+◌, ◌≤◌, ◌≡◌, refl, inl, inr, Bool-cases, false, List, [], ◌∷◌, ◌++◌, Str, bytes, str_eq,
  arith,
}
use lambcalc_cpp.Anf
use lambcalc_cpp.Anf.Monad.{fresh_name}
use lambcalc_cpp.Anf.Names.{fresh_name-injective}
use lambcalc_cpp.Anf.Ranged.{IsRanged}
use lambcalc_cpp.Hoist.{Function}
use lambcalc_cpp.Hoist.Recursive.{Parts, hoist_from, functions_of, nothing}

-- None of the functions has the name.
abbrev pub NoneNamed : Str → List Function → Type 0
NoneNamed x [] = Unit
NoneNamed x (f ∷ fs) = (str_eq x f.name ≡ false) × NoneNamed x fs

abbrev pub HaveDistinctNames : List Function → Type 0
HaveDistinctNames [] = Unit
HaveDistinctNames (f ∷ fs) = NoneNamed f.name fs × HaveDistinctNames fs

-- The names are made at ascending counters from `n` on and before `m`.
abbrev AreAscending : ℕ → List Function → ℕ → Type 0
AreAscending n [] m = n ≤ m
AreAscending n (f ∷ fs) m = (k : ℕ) × (n ≤ k) × (f.name ≡ fresh_name k) × AreAscending (k + 1) fs m

AreAscending-append :
    (n k m : ℕ) (fs gs : List Function)
    → AreAscending n fs k
    → AreAscending k gs m
    → AreAscending n (fs ++ gs) m
AreAscending-append n k m [] [] h l = omega arith
AreAscending-append n k m [] (g ∷ gs) h (i, l, q, hs) = (i, omega arith, q, hs)
AreAscending-append n k m (f ∷ fs) gs (i, l, q, hs) k' =
    (i, l, q, AreAscending-append (i + 1) k m fs gs hs k')

AreAscending-later :
    (fs : List Function) (a n m : ℕ) → n ≤ m → AreAscending a fs n → AreAscending a fs m
AreAscending-later [] a n m le h = omega arith
AreAscending-later (f ∷ fs) a n m le (i, l, q, hs) =
    (i, l, q, AreAscending-later fs (i + 1) n m le hs)

hoist_from-AreAscending :
    (e : Anf.Exp) (s : Parts) (a n m : ℕ)
    → AreAscending a s.functions n
    → IsRanged n e m
    → AreAscending a (hoist_from e s).1.functions m
unfolding hoist_from
hoist_from-AreAscending (Anf.fun_exp name params body rest) s a n m h (k, hb, q, hr) =
    let s₀ = record s { joins = [] } in
    let s₁ = (hoist_from body s₀).1 in
    hoist_from-AreAscending rest _ a (k + 1) m
      (AreAscending-append a k (k + 1) s₁.functions _ (hoist_from-AreAscending body s₀ a n k h hb)
        (k, omega arith, q, omega arith))
      hr
hoist_from-AreAscending (Anf.join_exp name slot body rest) s a n m h (k, hb, hr) =
    hoist_from-AreAscending rest _ a k m (hoist_from-AreAscending body s a n k h hb) hr
hoist_from-AreAscending (Anf.if_exp cond t e) s a n m h (k, ht, he) =
    hoist_from-AreAscending e _ a k m (hoist_from-AreAscending t s a n k h ht) he
hoist_from-AreAscending (Anf.bop_exp name bop u v rest) s a n m h r =
    hoist_from-AreAscending rest s a n m h r
hoist_from-AreAscending (Anf.app_exp name f vs rest) s a n m h r =
    hoist_from-AreAscending rest s a n m h r
hoist_from-AreAscending (Anf.tuple_exp name vs rest) s a n m h r =
    hoist_from-AreAscending rest s a n m h r
hoist_from-AreAscending (Anf.proj_exp name t i rest) s a n m h r =
    hoist_from-AreAscending rest s a n m h r
hoist_from-AreAscending (Anf.jump_exp j v) s a n m h r = AreAscending-later s.functions a n m r h
hoist_from-AreAscending (Anf.halt_exp v) s a n m h r = AreAscending-later s.functions a n m r h

fresh_name-main : (k : ℕ) → str_eq (fresh_name k) (bytes "main") ≡ false
unfolding fresh_name str_eq
fresh_name-main k = refl

-- A name made before, or that of `main`.
AreAscending-NoneNamed :
    (fs : List Function) (main : Function) (k n m : ℕ)
    → main.name ≡ bytes "main"
    → k + 1 ≤ n
    → AreAscending n fs m
    → NoneNamed (fresh_name k) (fs ++ main ∷ [])
AreAscending-NoneNamed [] main k n m e le h = (rw (e) (fresh_name-main k), tt)
AreAscending-NoneNamed (f ∷ fs) main k n m e le (i, l, q, hs) = (
  (elim (Bool-cases (str_eq (fresh_name k) (fresh_name i))) [
    | inl p ↦ let same = fresh_name-injective k i p in absurd (omega arith)
    | inr p ↦ rw (q) p
  ]),
  AreAscending-NoneNamed fs main k (i + 1) m e (omega arith) hs,
)

AreAscending-HaveDistinctNames :
    (fs : List Function) (main : Function) (n m : ℕ)
    → main.name ≡ bytes "main"
    → AreAscending n fs m
    → HaveDistinctNames (fs ++ main ∷ [])
AreAscending-HaveDistinctNames [] main n m e h = (tt, tt)
AreAscending-HaveDistinctNames (f ∷ fs) main n m e (i, l, q, hs) = (
  rw (q) (AreAscending-NoneNamed fs main i (i + 1) m e (omega arith) hs),
  AreAscending-HaveDistinctNames fs main (i + 1) m e hs,
)

-- `main` is hoisted last, and the others ascend.
pub functions_of-HaveDistinctNames :
    (exp : Anf.Exp) (n m : ℕ) → IsRanged n exp m → HaveDistinctNames (functions_of exp)
unfolding hoist_from
functions_of-HaveDistinctNames exp n m h =
    AreAscending-HaveDistinctNames (hoist_from exp nothing).1.functions _ n m refl
      (hoist_from-AreAscending exp nothing n n m (omega arith) h)
