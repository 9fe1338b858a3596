-- ===== src/Lexer/Progress.antt =====
-- src/lexer.cpp: each token but the last takes something from the stream.
use lambcalc_cpp.Base.{
  ℕ, suc, ◌+◌, ◌≤◌, ◌<◌, ◌≡◌, refl, ◌⊎◌, inl, inr, Bool, Option, none, some, List, [], ◌∷◌, length,
  Bool-cases, arith,
}
use lambcalc_cpp.Lexer.{
  Lexer, eof, is_space, is_alpha, is_digit, is_alnum, skip_spaces, read_while, read_token,
  get_token, tail, peek,
}

abbrev width : Option ℕ → ℕ
width none = 0
width (some c) = 1

-- The characters that are not yet part of a token.
abbrev pub pending : Lexer → ℕ
pending s = width s.last_char + length s.input

skip_spaces-pending :
    (c : Option ℕ) (input : List ℕ)
    → width (skip_spaces c input).0 + length (skip_spaces c input).1 ≤ width c + length input
unfolding is_space
skip_spaces-pending none [] = omega arith
skip_spaces-pending (some c) [] = elim (Bool-cases (is_space (some c))) [
  | inl e ↦ rw (e) (omega arith)
  | inr e ↦ rw (e) (omega arith)
]
skip_spaces-pending c (d ∷ input) =
    let h = skip_spaces-pending (some d) input in
    elim (Bool-cases (is_space c)) [ inl e ↦ rw (e) (omega arith) | inr e ↦ rw (e) (omega arith) ]

read_while-pending :
    (p : Option ℕ → Bool) (input : List ℕ)
    → width (read_while p input).1 + length (read_while p input).2 ≤ length input
read_while-pending p [] = omega arith
read_while-pending p (c ∷ input) =
    let h = read_while-pending p input in
    elim (Bool-cases (p (some c))) [ inl e ↦ rw (e) (omega arith) | inr e ↦ rw (e) (omega arith) ]

tail-pending : (input : List ℕ) → width (peek input) + length (tail input) ≤ length input
tail-pending [] = omega arith
tail-pending (c ∷ input) = omega arith

tail-length : (input : List ℕ) → length (tail input) ≤ length input
tail-length [] = omega arith
tail-length (c ∷ input) = omega arith

read_token-pending : (c : ℕ) (s : Lexer) → pending (read_token (some c) s).1 < suc (length s.input)
unfolding is_alpha is_digit
read_token-pending c s =
    let word = read_while-pending is_alnum s.input in
    let number = read_while-pending is_digit s.input in
    let one = tail-pending s.input in
    let two = tail-pending (tail s.input) in let less = tail-length s.input in grind arith

-- `getToken` returns the token of the end of the stream and no more is pending after it, or less is
-- pending after it.
pub get_token-pending :
    (s : Lexer)
    → (((get_token s).0 ≡ eof) × (pending (get_token s).1 ≤ pending s))
      ⊎ (pending (get_token s).1 < pending s)
unfolding get_token
get_token-pending s =
    let h = skip_spaces-pending s.last_char s.input in
    go (skip_spaces s.last_char s.input).0 (skip_spaces s.last_char s.input).1 h
  where
    go :
        (c : Option ℕ) (input : List ℕ)
        → width c + length input ≤ pending s
        → (((read_token c (record s { last_char = c; input = input })).0 ≡ eof)
            × (pending (read_token c (record s { last_char = c; input = input })).1 ≤ pending s))
          ⊎ (pending (read_token c (record s { last_char = c; input = input })).1 < pending s)
    go none input h = inl (refl, h)
    go (some c) input h =
        let smaller = read_token-pending c (record s { last_char = some c; input = input }) in
        inr (omega arith)
