-- ===== src/Rename/Fresh.antt =====
-- src/rename.cpp: the names that `fresh` makes of parameters that do not end in a digit are distinct
-- where the counter is.
use lambcalc_cpp.Base.{
  ℕ, ◌≡◌, refl, ◌∙◌, sym, ap, inl, inr, Bool, true, false, some, [], ◌∷◌, ◌++◌, Str, numbered,
  to_string, Bool-cases, if◌then◌else◌, not,
}
use lambcalc_cpp.Lexer.{is_digit, strtod}
use lambcalc_cpp.Lexer.Numbers.{all, to_string-all, strtod-to_string}

-- The last character, if there is one, is no digit.
abbrev pub is_plain : Str → Bool
is_plain [] = true
is_plain (c ∷ []) = not (is_digit (some c))
is_plain (c ∷ d ∷ s) = is_plain (d ∷ s)

-- The digits at the end of a string.
abbrev trailing : Str → Str
trailing [] = []
trailing (c ∷ s) = let rest = trailing s in if all is_digit (c ∷ s) then c ∷ s else rest

trailing-all : (s : Str) → all is_digit s ≡ true → trailing s ≡ s
trailing-all [] h = refl
trailing-all (c ∷ s) h = rw (h)

-- A string that does not end in a digit does not become digits by what is put behind it.
all-plain : (c : ℕ) (s d : Str) → is_plain (c ∷ s) ≡ true → all is_digit ((c ∷ s) ++ d) ≡ false
all-plain c [] d h = elim (Bool-cases (is_digit (some c))) [
  | inl e ↦ let e' : not (is_digit (some c)) ≡ false = rw (e) in cc
  | inr e ↦ rw (e)
]
all-plain c (c' ∷ s) d h = elim (Bool-cases (is_digit (some c))) [
  | inl e ↦ rw (e) (all-plain c' s d h)
  | inr e ↦ rw (e)
]

is_plain-tail : (c : ℕ) (s : Str) → is_plain (c ∷ s) ≡ true → is_plain s ≡ true
is_plain-tail c [] h = refl
is_plain-tail c (d ∷ s) h = h

trailing-append : (s d : Str) → is_plain s ≡ true → all is_digit d ≡ true → trailing (s ++ d) ≡ d
trailing-append [] d h k = trailing-all d k
trailing-append (c ∷ s) d h k = rw (all-plain c s d h) (trailing-append s d (is_plain-tail c s h) k)

-- `fresh` at different counters.
pub numbered-injective :
    (x y : Str) (n m : ℕ)
    → is_plain x ≡ true
    → is_plain y ≡ true
    → numbered x n ≡ numbered y m
    → n ≡ m
unfolding numbered
numbered-injective x y n m hx hy e =
    let same : to_string n ≡ to_string m =
      sym (trailing-append x (to_string n) hx (to_string-all n))
      ∙ ap trailing e
      ∙ trailing-append y (to_string m) hy (to_string-all m) in
    sym (strtod-to_string n) ∙ ap (strtod 0) same ∙ strtod-to_string m
