-- ===== src/Tests/LexerTests.antt =====
-- The input of test/lexer.cpp, and the theorems on `getToken`.
use lambcalc_cpp.Base.{
  ℕ, ℤ, pos, negsuc, zero, suc, ◌≡◌, refl, ◌⊎◌, ◌<◌, ◌≤◌, List, [], ◌∷◌, ◌++◌, bytes, str_eq,
}
use lambcalc_cpp.Lexer
use lambcalc_cpp.Lexer.{
  Token, number, identifier, fn, arrow, if_, then_, else_, character, eof, get_token, start,
  is_space, is_alpha, is_digit,
}
use lambcalc_cpp.Lexer.Tokens.{numeral, at, text_of, token_of, store, get_token-text}
use lambcalc_cpp.Lexer.Progress.{pending, get_token-pending}

-- What x86-64 gives for a number that is no `int`.
abbrev pub lowest : ℕ → ℤ
lowest n = negsuc 2147483647

-- The first tokens.
abbrev tokens : ℕ → Lexer.Lexer → List Token
tokens zero s = []
tokens (suc n) s = let (t, s') = get_token s in t ∷ tokens n s'

-- `Lexer.Tokens`.
get_token-tokens :
    tokens 17 (start lowest (bytes " (fn a => a + 1 ) ( if 1  then  2 else  3)  "))
    ≡ character 40
      ∷ fn
      ∷ identifier
      ∷ arrow
      ∷ identifier
      ∷ character 43
      ∷ number
      ∷ character 41
      ∷ character 40
      ∷ if_
      ∷ number
      ∷ then_
      ∷ number
      ∷ else_
      ∷ number
      ∷ character 41
      ∷ eof
      ∷ []
unfolding get_token start str_eq
get_token-tokens = refl

abbrev unread : Lexer.Lexer
unread = start lowest []

-- The largest `int`, and the number after it.
get_token-largest : (get_token (start lowest (bytes "2147483647 "))).1.number_value ≡ pos 2147483647
unfolding get_token start
get_token-largest = refl

get_token-beyond :
    (get_token (start lowest (bytes "2147483648 "))).1.number_value ≡ negsuc 2147483647
unfolding get_token start
get_token-beyond = refl

get_token-text_example :
    get_token (at (text_of (numeral 120) ++ bytes ")") unread)
    ≡ (token_of (numeral 120), at (bytes ")") (store (numeral 120) unread))
unfolding is_digit
get_token-text_example = get_token-text (numeral 120) (bytes ")") unread (refl, refl)

get_token-pending_example :
    (((get_token (start lowest (bytes "x"))).0 ≡ eof)
      × (pending (get_token (start lowest (bytes "x"))).1 ≤ pending (start lowest (bytes "x"))))
    ⊎ (pending (get_token (start lowest (bytes "x"))).1 < pending (start lowest (bytes "x")))
get_token-pending_example = get_token-pending (start lowest (bytes "x"))
