-- ===== src/Lexer/Tokens.antt =====
-- src/lexer.cpp: the lexer reads each token back from its text.
use lambcalc_cpp.Base.{
  ℕ, ◌≡◌, refl, ◌∙◌, sym, ap, Bool, true, false, Option, some, pos, List, [], ◌∷◌, ◌++◌, Str, bytes,
  ◌==◌, to_string, arith,
}
use lambcalc_cpp.Lexer.{
  Token, Lexer, number, arrow, character, is_space, is_digit, is_alpha, is_alnum, peek, tail,
  skip_spaces, read_while, keyword, strtod, to_int, fits_int, read_token, get_token,
}
use lambcalc_cpp.Lexer.Numbers.{all, strtod-to_string, to_string-all, to_string-cons}

-- The lexer in front of a text: the last character is the first of it.
abbrev pub at : List ℕ → Lexer → Lexer
at text s = record s { last_char = peek text; input = tail text }

-- A word that is an identifier or a keyword, a number, the arrow, or another character.
pub data Lexeme : Type 0 where
  word : ℕ → Str → Lexeme
  numeral : ℕ → Lexeme
  arrow_sign : Lexeme
  sign : ℕ → Lexeme

abbrev pub text_of : Lexeme → List ℕ
text_of (word c cs) = c ∷ cs
text_of (numeral n) = to_string n
text_of arrow_sign = bytes "=>"
text_of (sign c) = c ∷ []

abbrev pub token_of : Lexeme → Token
token_of (word c cs) = keyword (c ∷ cs)
token_of (numeral n) = number
token_of arrow_sign = arrow
token_of (sign c) = character c

-- What the lexer keeps of it.
abbrev pub store : Lexeme → Lexer → Lexer
store (word c cs) s = record s { identifier = c ∷ cs }
store (numeral n) s = record s { number_value = pos n }
store _ s = s

-- A word is letters and digits, the first a letter, a number is a value of `int`, and another character is in no class. Neither a
-- word nor a number is followed by more of its kind, and `=` not by `>`.
abbrev pub IsFollowedBy : Lexeme → List ℕ → Type 0
IsFollowedBy (word c cs) more =
    (is_alpha (some c) ≡ true) × (all is_alnum cs ≡ true) × (is_alnum (peek more) ≡ false)
IsFollowedBy (numeral n) more = (fits_int n ≡ true) × (is_digit (peek more) ≡ false)
IsFollowedBy arrow_sign more = Unit
IsFollowedBy (sign c) more =
    (is_space (some c) ≡ false) × (is_alnum (some c) ≡ false) × ((c == 61) ≡ false)

read_while-append :
    (p : Option ℕ → Bool) (s more : List ℕ)
    → all p s ≡ true
    → p (peek more) ≡ false
    → read_while p (s ++ more) ≡ (s, peek more, tail more)
read_while-append p [] [] h k = refl
read_while-append p [] (c ∷ more) h k = rw (k)
read_while-append p (c ∷ s) more h k =
    let (a, b) : (p (some c) ≡ true) × (all p s ≡ true) = (ground arith, ground arith) in
    rw (a, read_while-append p s more b k)

skip_spaces-stop :
    (c : Option ℕ) (input : List ℕ) → is_space c ≡ false → skip_spaces c input ≡ (c, input)
skip_spaces-stop c [] h = rw (h)
skip_spaces-stop c (d ∷ input) h = rw (h)

-- In front of something that is no space the lexer goes straight to the token.
get_token-read :
    (c : ℕ) (text : List ℕ) (s : Lexer)
    → is_space (some c) ≡ false
    → get_token (at (c ∷ text) s) ≡ read_token (some c) (at (c ∷ text) s)
unfolding get_token
get_token-read c text s h = rw (skip_spaces-stop (some c) text h)

-- A space in front makes no difference.
pub get_token-space :
    (c : ℕ) (text : List ℕ) (s : Lexer)
    → is_space (some c) ≡ true
    → get_token (at (c ∷ text) s) ≡ get_token (at text s)
unfolding get_token is_space
get_token-space c [] s h = rw (h)
get_token-space c (d ∷ text) s h = rw (h)

alpha-not_space :
    (c : ℕ) → is_alpha (some c) ≡ true → (is_space (some c) ≡ false) × ((c == 61) ≡ false)
unfolding is_alpha is_space
alpha-not_space c h = (ground arith, ground arith)

digit-not_alpha :
    (c : ℕ)
    → is_digit (some c) ≡ true
    → (is_space (some c) ≡ false) × (is_alpha (some c) ≡ false) × ((c == 61) ≡ false)
unfolding is_digit is_alpha is_space
digit-not_alpha c h = (ground arith, ground arith, ground arith)

get_token-word :
    (c : ℕ) (cs more : List ℕ) (s : Lexer)
    → IsFollowedBy (word c cs) more
    → get_token (at (c ∷ cs ++ more) s)
      ≡ (keyword (c ∷ cs), at more (record s { identifier = c ∷ cs }))
get_token-word c cs more s (h, hs, k) =
    let (no_space, no_equals) = alpha-not_space c h in
    get_token-read c (cs ++ more) s no_space
    ∙ rw (no_equals, h, read_while-append is_alnum cs more hs k)

get_token-digits :
    (c : ℕ) (cs more : List ℕ) (s : Lexer)
    → all is_digit (c ∷ cs) ≡ true
    → is_digit (peek more) ≡ false
    → get_token (at (c ∷ cs ++ more) s)
      ≡ (number, at more (record s { number_value = to_int s.beyond_int (strtod 0 (c ∷ cs)) }))
get_token-digits c cs more s h k =
    let (a, b) : (is_digit (some c) ≡ true) × (all is_digit cs ≡ true) =
      (ground arith, ground arith) in
    let (no_space, no_alpha, no_equals) = digit-not_alpha c a in
    get_token-read c (cs ++ more) s no_space
    ∙ rw (no_equals, no_alpha, a, read_while-append is_digit cs more b k)

get_token-numeral :
    (n : ℕ) (more : List ℕ) (s : Lexer)
    → IsFollowedBy (numeral n) more
    → get_token (at (to_string n ++ more) s) ≡ (number, at more (record s { number_value = pos n }))
get_token-numeral n more s (fits, k) =
    let (c, cs, e) = to_string-cons n in
    let all_digits = to_string-all n in
    let value : to_int s.beyond_int (strtod 0 (c ∷ cs)) ≡ pos n =
      ap (λ d. to_int s.beyond_int (strtod 0 d)) (sym e)
      ∙ ap (to_int s.beyond_int) (strtod-to_string n)
      ∙ rw (fits) in
    rw (e) (
      get_token-digits c cs more s (rw e at all_digits) k
      ∙ ap (λ i. (number, at more (record s { number_value = i }))) value)

get_token-sign :
    (c : ℕ) (more : List ℕ) (s : Lexer)
    → IsFollowedBy (sign c) more
    → get_token (at (c ∷ more) s) ≡ (character c, at more s)
get_token-sign c more s (no_space, no_alnum, no_equals) =
    let no_alpha : is_alpha (some c) ≡ false = ground arith in
    let no_digit : is_digit (some c) ≡ false = ground arith in
    get_token-read c more s no_space ∙ rw (no_equals, no_alpha, no_digit)

get_token-arrow :
    (more : List ℕ) (s : Lexer) → get_token (at (bytes "=>" ++ more) s) ≡ (arrow, at more s)
unfolding is_space
get_token-arrow more s = get_token-read 61 (62 ∷ more) s refl

-- In front of the text of an identifier or keyword, a number below 2 ^ 31, the arrow or a character that is no
-- space and not `=`, with nothing behind it that would belong to it as well, `getToken` returns that
-- token, keeps the name of an identifier and the value of a number, and stands behind it.
pub get_token-text :
    (l : Lexeme) (more : List ℕ) (s : Lexer)
    → IsFollowedBy l more
    → get_token (at (text_of l ++ more) s) ≡ (token_of l, at more (store l s))
get_token-text (word c cs) more s h = get_token-word c cs more s h
get_token-text (numeral n) more s h = get_token-numeral n more s h
get_token-text arrow_sign more s h = get_token-arrow more s
get_token-text (sign c) more s h = get_token-sign c more s h
