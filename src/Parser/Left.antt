-- ===== src/Parser/Left.antt =====
-- src/parser.cpp: what the parser has still to read, and how its steps reduce it.
use lambcalc_cpp.Base.{
  ℕ, ◌+◌, ◌≤◌, ◌<◌, ◌≡◌, refl, ◌⊎◌, inl, inr, Bool-cases, Option, none, some, arith,
}
use lambcalc_cpp.Lexer.{
  Token, eof, number, identifier, fn, arrow, if_, then_, else_, character, get_token,
}
use lambcalc_cpp.Lexer.Progress.{pending, get_token-pending}
use lambcalc_cpp.Parser
use lambcalc_cpp.Parser.{
  BindingPowers, Parsed, parsed, invalid_token, expected, out_of_fuel, bind, next_token, look,
  expect, token_eq, decide, operator, application, stop, parse_bin_op, parse_rest, parse_primary,
  parse_fn, parse_if, parse_parens,
}

abbrev pub peeked : Option Token → ℕ
peeked none = 0
peeked (some eof) = 0
peeked (some t) = 1

-- What the parser has still to read: the characters that are pending, and the token that is looked at.
abbrev pub left : Parser.Parser → ℕ
left s = pending s.lexer + peeked s.peek_token

-- The parser did not run out of fuel; if it parsed something, less than `m` is left, and if it threw
-- an exception, this was at the end of the stream or less than `m` is left.
abbrev pub Ends : {A : Type 0} → ℕ → Parsed A → Type 0
Ends m (parsed a s) = left s < m
Ends m (invalid_token t s) = (t ≡ eof) ⊎ (left s < m)
Ends m (expected t) = Unit
Ends m out_of_fuel = ⊥

pub Ends-bind :
    {A B : Type 0} (m m' : ℕ) (r : Parsed A) (f : A → Parser.Parser → Parsed B)
    → m ≤ m'
    → Ends m r
    → ((a : A) (s : Parser.Parser) → left s < m → Ends m' (f a s))
    → Ends m' (bind r f)
Ends-bind m m' (parsed a s) f le h k = k a s h
Ends-bind m m' (invalid_token t s) f le h k = elim h [ inl e ↦ inl e | inr l ↦ inr (omega arith) ]
Ends-bind m m' (expected t) f le h k = tt
Ends-bind m m' out_of_fuel f le h k = absurd h

pub Ends-weaken : {A : Type 0} (m m' : ℕ) (r : Parsed A) → m ≤ m' → Ends m r → Ends m' r
Ends-weaken m m' (parsed a s) h k = omega arith
Ends-weaken m m' (invalid_token t s) h k = elim k [ inl e ↦ inl e | inr l ↦ inr (omega arith) ]
Ends-weaken m m' (expected t) h k = tt
Ends-weaken m m' out_of_fuel h k = k

-- The next token is the end, or less is left behind it.
pub next_token-left :
    (s : Parser.Parser)
    → (((next_token s).current_token ≡ eof) × (left (next_token s) ≤ left s))
      ⊎ (left (next_token s) < left s)
next_token-left s = go s.peek_token refl
  where
    go :
        (t : Option Token)
        → s.peek_token ≡ t
        → (((next_token s).current_token ≡ eof) × (left (next_token s) ≤ left s))
          ⊎ (left (next_token s) < left s)
    go none e = elim (get_token-pending s.lexer) [
      | inl (p, h) ↦ rw (e) (inl (p, omega arith))
      | inr h ↦ rw (e) (inr (omega arith))
    ]
    go (some eof) e = rw (e) (inl (refl, omega arith))
    go (some number) e = rw (e) (inr (omega arith))
    go (some identifier) e = rw (e) (inr (omega arith))
    go (some fn) e = rw (e) (inr (omega arith))
    go (some arrow) e = rw (e) (inr (omega arith))
    go (some if_) e = rw (e) (inr (omega arith))
    go (some then_) e = rw (e) (inr (omega arith))
    go (some else_) e = rw (e) (inr (omega arith))
    go (some (character c)) e = rw (e) (inr (omega arith))

pub look-left : (s : Parser.Parser) → left (look s).1 ≤ left s
look-left s = go s.peek_token refl
  where
    looked : (t : Token) → ((t ≡ eof) ⊎ (peeked (some t) ≡ 1)) × (peeked (some t) ≤ 1)
    looked eof = (inl refl, omega arith)
    looked number = (inr refl, omega arith)
    looked identifier = (inr refl, omega arith)
    looked fn = (inr refl, omega arith)
    looked arrow = (inr refl, omega arith)
    looked if_ = (inr refl, omega arith)
    looked then_ = (inr refl, omega arith)
    looked else_ = (inr refl, omega arith)
    looked (character c) = (inr refl, omega arith)

    go : (t : Option Token) → s.peek_token ≡ t → left (look s).1 ≤ left s
    go (some t) e = rw (e) (omega arith)
    go none e = elim (get_token-pending s.lexer) [
      | inl (p, h) ↦ rw (e, p) (omega arith)
      | inr h ↦ let k = (looked (get_token s.lexer).0).1 in rw (e) (omega arith)
    ]

-- What is looked at comes next.
pub look-next : (s : Parser.Parser) → (next_token (look s).1).current_token ≡ (look s).0
look-next s = go s.peek_token refl
  where
    go : (t : Option Token) → s.peek_token ≡ t → (next_token (look s).1).current_token ≡ (look s).0
    go none e = rw (e)
    go (some t) e = rw (e)

pub expect-Ends : (t : Token) (m : ℕ) (s : Parser.Parser) → left s < m → Ends m (expect t s)
expect-Ends t m s h =
    let le : left (next_token s) ≤ left s = elim (next_token-left s) [
      | inl (p, h) ↦ h
      | inr h ↦ omega arith
    ] in
    elim (Bool-cases (token_eq (next_token s).current_token t)) [
      | inl e ↦ rw (e) (omega arith)
      | inr e ↦ rw (e) tt
    ]
