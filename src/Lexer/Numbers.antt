-- ===== src/Lexer/Numbers.antt =====
-- src/lexer.cpp: the value of the digits of a number.
use lambcalc_cpp.Base.{
  ℕ, zero, suc, ◌+◌, ◌-◌, ◌*◌, ◌/◌, ◌%◌, ◌<◌, ◌≡◌, refl, inl, inr, Bool, true, false, ◌&&◌, Option,
  some, [], ◌∷◌, ◌++◌, Str, ltb, Bool-cases, to_string, digits, arith,
}
use lambcalc_cpp.Lexer.{strtod, is_digit}

-- All bytes of a string are in a class.
abbrev pub all : (Option ℕ → Bool) → Str → Bool
all p [] = true
all p (c ∷ s) = p (some c) && all p s

all-append :
    (p : Option ℕ → Bool) (s : Str) (c : ℕ)
    → all p s ≡ true
    → p (some c) ≡ true
    → all p (s ++ c ∷ []) ≡ true
all-append p [] c h k = rw (k)
all-append p (d ∷ s) c h k = ground (arith, all-append p s c)

strtod-append : (n : ℕ) (s : Str) (c : ℕ) → strtod n (s ++ c ∷ []) ≡ 10 * strtod n s + (c - 48)
unfolding strtod
strtod-append n [] c = refl
strtod-append n (d ∷ s) c = strtod-append (10 * n + (d - 48)) s c

small : (n : ℕ) → ltb n 10 ≡ false → (n / 10 < n)
small n h = ground arith

digits-strtod : (f n : ℕ) → n < f → strtod 0 (digits f n) ≡ n
unfolding strtod digits
digits-strtod zero n h = absurd (omega arith)
digits-strtod (suc f) n h = elim (Bool-cases (ltb n 10)) [
  | inl e ↦ rw (e) (omega arith)
  | inr e ↦
      let smaller = small n e in
      let value = digits-strtod f (n / 10) (omega arith) in
      rw (e, strtod-append 0 (digits f (n / 10)) (48 + n % 10), value) (omega arith)
]

digits-all : (f n : ℕ) → all is_digit (digits f n) ≡ true
unfolding digits is_digit
digits-all zero n = refl
digits-all (suc f) n = elim (Bool-cases (ltb n 10)) [
  | inl e ↦ rw (e) (ground arith)
  | inr e ↦
      rw (e) (
        all-append is_digit (digits f (n / 10)) (48 + n % 10) (digits-all f (n / 10))
          (ground arith))
]

-- The digits that `to_string` gives a number have that number for their value.
pub strtod-to_string : (n : ℕ) → strtod 0 (to_string n) ≡ n
unfolding to_string
strtod-to_string n = digits-strtod (suc n) n (omega arith)

pub to_string-all : (n : ℕ) → all is_digit (to_string n) ≡ true
unfolding to_string
to_string-all n = digits-all (suc n) n

append-cons : (s : Str) (c : ℕ) → (d : ℕ) × (t : Str) × (s ++ c ∷ [] ≡ d ∷ t)
append-cons [] c = (c, [], refl)
append-cons (d ∷ s) c = (d, s ++ c ∷ [], refl)

-- There is at least one digit.
pub to_string-cons : (n : ℕ) → (c : ℕ) × (cs : Str) × (to_string n ≡ c ∷ cs)
unfolding to_string digits
to_string-cons n = elim (Bool-cases (ltb n 10)) [
  | inl e ↦ (48 + n, [], rw (e))
  | inr e ↦ let (c, cs, p) = append-cons (digits n (n / 10)) (48 + n % 10) in (c, cs, rw (e, p))
]
