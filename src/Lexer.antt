-- ===== src/Lexer.antt =====
-- include/lexer.h and src/lexer.cpp: the tokens, the state of the lexer, and `getToken`. The stream
-- is the list of the bytes that are still to be read; `none` is the EOF that `get` and `peek` return
-- at its end. The classes of bytes are those of the "C" locale.
pub mod Numbers
pub mod Tokens
pub mod Progress
use lambcalc_cpp.Base.{
  ℕ, zero, ◌+◌, ◌-◌, ◌*◌, Bool, true, false, ◌&&◌, ◌||◌, not, Option, none, some, List, [], ◌∷◌,
  ◌++◌, Str, bytes, str_eq, leb, ltb, ◌==◌, ℤ, pos, if◌then◌else◌,
}

-- The tokens that are single characters have the character for their value.
pub data Token : Type 0 where
  eof number identifier fn arrow if_ then_ else_ : Token
  character : ℕ → Token

pub record Lexer : Type 0 where
  pub input : List ℕ
  pub last_char : Option ℕ
  pub identifier : Str
  pub number_value : ℤ
  -- The `int` that the conversion of a larger number gives, which C++ leaves undefined.
  pub beyond_int : ℕ → ℤ

unfoldable pub is_space : Option ℕ → Bool
is_space none = false
is_space (some c) = c == 32 || (leb 9 c && leb c 13)

unfoldable pub is_digit : Option ℕ → Bool
is_digit none = false
is_digit (some c) = leb 48 c && leb c 57

unfoldable pub is_alpha : Option ℕ → Bool
is_alpha none = false
is_alpha (some c) = (leb 65 c && leb c 90) || (leb 97 c && leb c 122)

abbrev pub is_alnum : Option ℕ → Bool
is_alnum c = is_alpha c || is_digit c

-- `in_.peek()`.
abbrev pub peek : List ℕ → Option ℕ
peek [] = none
peek (c ∷ input) = some c

abbrev pub tail : List ℕ → List ℕ
tail [] = []
tail (c ∷ input) = input

-- `lastChar_ = in_.get()`.
abbrev pub get : Lexer → Lexer
get s = record s { last_char = peek s.input; input = tail s.input }

-- `while (isspace(lastChar_)) lastChar_ = in_.get();`, of the last character and the stream.
abbrev pub skip_spaces : Option ℕ → List ℕ → Option ℕ × List ℕ
skip_spaces c [] = if is_space c then (none, []) else (c, [])
skip_spaces c (d ∷ input) =
    let skipped = skip_spaces (some d) input in if is_space c then skipped else (c, d ∷ input)

-- A loop that appends characters of a class: what is appended, the last character and the stream.
abbrev pub read_while : (Option ℕ → Bool) → List ℕ → Str × Option ℕ × List ℕ
read_while is_member [] = ([], none, [])
read_while is_member (c ∷ input) =
    let (s, last_char, rest) = read_while is_member input in
    if is_member (some c) then (c ∷ s, last_char, rest) else ([], some c, input)

-- The tests for the keywords.
unfoldable pub keyword : Str → Token
keyword s =
    if str_eq s (bytes "fn")
    then fn
    else if str_eq s (bytes "=>")
    then arrow
    else if str_eq s (bytes "if")
    then if_
    else if str_eq s (bytes "then")
    then then_
    else if str_eq s (bytes "else")
    then else_
    else identifier

-- `strtod` of decimal digits: their value, of which a `double` keeps all digits below 2 ^ 53.
unfoldable pub strtod : ℕ → Str → ℕ
strtod n [] = n
strtod n (c ∷ s) = strtod (10 * n + (c - 48)) s

-- The values of an `int` that is not negative.
abbrev pub fits_int : ℕ → Bool
fits_int n = ltb n 2147483648

-- The conversion of `numberValue_ = strtod(...)` to `int`.
abbrev pub to_int : (ℕ → ℤ) → ℕ → ℤ
to_int beyond_int n = if fits_int n then pos n else beyond_int n

abbrev pub read_identifier : ℕ → Lexer → Token × Lexer
read_identifier c s =
    let (cs, last_char, input) = read_while is_alnum s.input in
    (keyword (c ∷ cs), record s { identifier = c ∷ cs; last_char = last_char; input = input })

abbrev pub read_number : ℕ → Lexer → Token × Lexer
read_number c s =
    let (cs, last_char, input) = read_while is_digit s.input in
    (
      number,
      record s {
        number_value = to_int s.beyond_int (strtod 0 (c ∷ cs));
        last_char = last_char;
        input = input;
      },
    )

-- The part of `getToken` after the spaces.
abbrev pub read_token : Option ℕ → Lexer → Token × Lexer
read_token none s = (eof, s)
read_token (some c) s =
    if c == 61 && is_greater (peek s.input)
    then (arrow, get (record s { input = tail s.input }))
    else if is_alpha (some c)
    then read_identifier c s
    else if is_digit (some c)
    then read_number c s
    else (character c, get s)
  where
    is_greater : Option ℕ → Bool
    is_greater none = false
    is_greater (some d) = d == 62

unfoldable pub get_token : Lexer → Token × Lexer
unfolding is_space is_digit is_alpha keyword strtod
get_token s =
    let (last_char, input) = skip_spaces s.last_char s.input in
    read_token last_char (record s { last_char = last_char; input = input })

unfoldable pub start : (ℕ → ℤ) → List ℕ → Lexer
start beyond_int input = record {
  input = input;
  last_char = some 32;
  identifier = [];
  number_value = pos 0;
  beyond_int = beyond_int;
}
