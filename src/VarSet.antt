-- ===== src/VarSet.antt =====
-- `std::set<Var>`: the names in ascending order of their bytes, each once.
use Prim.Native.Nat.{Ordering, compare}
use lambcalc_cpp.Base.{
  ◌≡◌, refl, Bool, true, false, ◌&&◌, ◌||◌, not, List, [], ◌∷◌, Str, str_eq, str_eq_iff, arith,
}

-- `std::string::compare`.
unfoldable pub str_compare : Str → Str → Ordering
str_compare [] [] = Ordering.eq
str_compare [] (y ∷ t) = Ordering.lt
str_compare (x ∷ s) [] = Ordering.gt
str_compare (x ∷ s) (y ∷ t) = elim (compare x y) [
  | Ordering.eq ↦ str_compare s t
  | Ordering.lt ↦ Ordering.lt
  | Ordering.gt ↦ Ordering.gt
]

unfoldable pub insert : Str → List Str → List Str
insert x [] = x ∷ []
insert x (y ∷ s) = elim (str_compare x y) [
  | Ordering.lt ↦ x ∷ y ∷ s
  | Ordering.eq ↦ y ∷ s
  | Ordering.gt ↦ y ∷ insert x s
]

unfoldable pub erase : Str → List Str → List Str
erase x [] = []
erase x (y ∷ s) = elim (str_eq x y) [ true ↦ erase x s | false ↦ y ∷ erase x s ]

unfoldable pub contains : List Str → Str → Bool
contains [] x = false
contains (y ∷ s) x = str_eq x y || contains s x

str_compare-eq : (s t : Str) → str_compare s t ≡ Ordering.eq → str_eq s t ≡ true
unfolding str_compare str_eq
str_compare-eq [] [] h = refl
str_compare-eq [] (y ∷ t) h = cc
str_compare-eq (x ∷ s) [] h = cc
str_compare-eq (x ∷ s) (y ∷ t) h = ground (arith, str_compare-eq s t)

pub contains-insert :
    (x y : Str) (s : List Str) → contains (insert y s) x ≡ (str_eq x y || contains s x)
unfolding insert contains
contains-insert x y [] = refl
contains-insert x y (z ∷ s) = ground (
  arith,
  contains-insert x y s,
  str_compare-eq y z,
  str_eq_iff x y,
  str_eq_iff x z,
  str_eq_iff y z,
)

pub contains-erase :
    (x y : Str) (s : List Str) → contains (erase y s) x ≡ (not (str_eq x y) && contains s x)
unfolding erase contains
contains-erase x y [] = ground arith
contains-erase x y (z ∷ s) =
    ground (arith, contains-erase x y s, str_eq_iff x y, str_eq_iff x z, str_eq_iff y z)
