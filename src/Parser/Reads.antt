-- ===== src/Parser/Reads.antt =====
-- src/parser.cpp: how the parser goes through a text, and when it reads an expression off its front.
use lambcalc_cpp.Base.{
  ℕ, zero, suc, ◌≤◌, ◌≡◌, refl, ◌∙◌, ap, true, false, Option, none, some, List, [], ◌∷◌, ◌++◌,
  append_assoc, arith, if◌then◌else◌,
}
use lambcalc_cpp.Ast
use lambcalc_cpp.Lexer
use lambcalc_cpp.Lexer.{Token, character, is_space, is_alpha, is_digit, is_alnum, peek, get_token}
use lambcalc_cpp.Lexer.Tokens.{
  Lexeme, sign, at, text_of, token_of, store, IsFollowedBy, get_token-space, get_token-text,
}
use lambcalc_cpp.Parser
use lambcalc_cpp.Parser.{
  BindingPowers, Parsed, parsed, bind, next_token, look, expect, token_eq, decide, stop,
  parse_bin_op, parse_rest, parse_primary, parse_parens,
}
use lambcalc_cpp.Parser.Rounds.{parse_rest-stop}

-- The parser in front of a text, with no token peeked at.
abbrev pub before : List ℕ → Lexer.Lexer → Token → Parser.Parser
before text lexer c = record { lexer = at text lexer; current_token = c; peek_token = none }

-- A token that was peeked at comes next, and is peeked at again.
pub next_token-look : (s : Parser.Parser) → next_token (look s).1 ≡ next_token s
next_token-look s = go s.peek_token refl
  where
    go : (t : Option Token) → s.peek_token ≡ t → next_token (look s).1 ≡ next_token s
    go none e = rw (e)
    go (some t) e = rw (e)

pub look-look : (s : Parser.Parser) → look (look s).1 ≡ look s
look-look s = go s.peek_token refl
  where
    go : (t : Option Token) → s.peek_token ≡ t → look (look s).1 ≡ look s
    go none e = rw (e)
    go (some t) e = rw (e)

module _ (l : Lexeme) (more : List ℕ) (lexer : Lexer.Lexer) (c : Token)
    (h : IsFollowedBy l more) where
  pub next_token-text :
      next_token (before (text_of l ++ more) lexer c) ≡ before more (store l lexer) (token_of l)
  next_token-text = rw (get_token-text l more lexer h)

  pub look-text : (look (before (text_of l ++ more) lexer c)).0 ≡ token_of l
  look-text = rw (get_token-text l more lexer h)

module _ (text : List ℕ) (lexer : Lexer.Lexer) (c : Token) where
  pub next_token-space : next_token (before (32 ∷ text) lexer c) ≡ next_token (before text lexer c)
  unfolding is_space
  next_token-space = rw (get_token-space 32 text lexer refl)

  pub look-space : look (before (32 ∷ text) lexer c) ≡ look (before text lexer c)
  unfolding is_space
  look-space = rw (get_token-space 32 text lexer refl)

pub expect-next :
    (t : Token) (s s' : Parser.Parser)
    → next_token s ≡ s'
    → token_eq s'.current_token t ≡ true
    → expect t s ≡ parsed tt s'
expect-next t s s' e h =
    ap
      (λ (u : Parser.Parser). if token_eq u.current_token t then parsed tt u else Parser.expected t)
      e
    ∙ rw (h)

module _ (bp : BindingPowers) where
  -- In front of the text the loop of `parseBinOp` returns.
  abbrev pub Stops : ℕ → List ℕ → Type 0
  Stops min_bp more =
      (lexer : Lexer.Lexer) (c : Token) → decide bp min_bp (look (before more lexer c)).0 ≡ stop

  -- With `n` fuel `parsePrimary` reads the expression off the front, of which the first token is the
  -- current one.
  abbrev pub ReadsPrimary : Ast.Exp → List ℕ → ℕ → Type 0
  ReadsPrimary e text n =
      (f : ℕ) (lexer : Lexer.Lexer) (c : Token) (more : List ℕ)
      → n ≤ f
      → is_alnum (peek more) ≡ false
      → (lexer' : Lexer.Lexer) × (c' : Token) × (parse_primary bp f
            (next_token (before (text ++ more) lexer c))
          ≡ parsed e (before more lexer' c'))

  -- With `n` fuel `parseBinOp` reads the expression off the front, where it stops behind it.
  abbrev pub ReadsBin : Ast.Exp → List ℕ → ℕ → Type 0
  ReadsBin e text n =
      (f min_bp : ℕ) (s : Parser.Parser) (lexer : Lexer.Lexer) (c : Token) (more : List ℕ)
      → n ≤ f
      → is_alnum (peek more) ≡ false
      → Stops min_bp more
      → next_token s ≡ next_token (before (text ++ more) lexer c)
      → (lexer' : Lexer.Lexer) × (c' : Token) × (parse_bin_op bp f min_bp s
          ≡ parsed e (look (before more lexer' c')).1)

  -- The same in front of a closing parenthesis.
  abbrev pub ReadsContent : Ast.Exp → List ℕ → ℕ → Type 0
  ReadsContent e text n =
      (f : ℕ) (lexer : Lexer.Lexer) (c : Token) (more : List ℕ)
      → n ≤ f
      → (lexer' : Lexer.Lexer) × (c' : Token) × (parse_bin_op bp f 0
            (before (text ++ 41 ∷ more) lexer c)
          ≡ parsed e (look (before (41 ∷ more) lexer' c')).1)

  pub Stops-close : (min_bp : ℕ) (more : List ℕ) → Stops min_bp (41 ∷ more)
  unfolding is_space is_alpha is_digit
  Stops-close min_bp more lexer c = rw (look-text (sign 41) more lexer c (refl, refl, refl))

  -- The loop of `parseBinOp` at a place where it stops, looked at or not.
  pub parse_rest-before :
      (f min_bp : ℕ) (e : Ast.Exp) (more : List ℕ) (lexer : Lexer.Lexer) (c : Token)
      → 1 ≤ f
      → Stops min_bp more
      → parse_rest bp f min_bp e (before more lexer c) ≡ parsed e (look (before more lexer c)).1
  parse_rest-before zero min_bp e more lexer c h st = absurd (omega arith)
  parse_rest-before (suc f) min_bp e more lexer c h st =
      parse_rest-stop bp f min_bp e (before more lexer c) (st lexer c)

  pub parse_rest-looked :
      (f min_bp : ℕ) (e : Ast.Exp) (more : List ℕ) (lexer : Lexer.Lexer) (c : Token)
      → 1 ≤ f
      → Stops min_bp more
      → parse_rest bp f min_bp e (look (before more lexer c)).1
        ≡ parsed e (look (before more lexer c)).1
  parse_rest-looked zero min_bp e more lexer c h st = absurd (omega arith)
  parse_rest-looked (suc f) min_bp e more lexer c h st =
      let s = before more lexer c in
      parse_rest-stop bp f min_bp e (look s).1
        (ap (λ (r : Token × Parser.Parser). decide bp min_bp r.0) (look-look s) ∙ st lexer c)
      ∙ ap (λ (r : Token × Parser.Parser). parsed e r.1) (look-look s)

  pub ReadsBin-of_primary :
      (e : Ast.Exp) (text : List ℕ) (n : ℕ)
      → 1 ≤ n
      → ReadsPrimary e text n
      → ReadsBin e text (suc n)
  unfolding parse_bin_op
  ReadsBin-of_primary e text n pos_n p zero min_bp s lexer c more h a st q = absurd (omega arith)
  ReadsBin-of_primary e text n pos_n p (suc f) min_bp s lexer c more h a st q =
      let (lexer', c', r) = p f lexer c more (omega arith) a in
      (
        lexer',
        c',
        ap (λ t. bind (parse_primary bp f t) (parse_rest bp f min_bp)) q
            ∙ ap (λ t. bind t (parse_rest bp f min_bp)) r
            ∙ parse_rest-before f min_bp e more lexer' c' (omega arith) st,
      )

  -- The parenthesis behind a content.
  pub expect-close :
      (more : List ℕ) (lexer : Lexer.Lexer) (c : Token)
      → expect (character 41) (look (before (41 ∷ more) lexer c)).1
        ≡ parsed tt (before more lexer (character 41))
  unfolding is_space is_alpha is_digit
  expect-close more lexer c =
      let s = before (41 ∷ more) lexer c in
      expect-next (character 41) (look s).1 (before more lexer (character 41))
        (next_token-look s ∙ next_token-text (sign 41) more lexer c (refl, refl, refl)) refl

  pub ReadsPrimary-of_content :
      (e : Ast.Exp) (text : List ℕ) (n : ℕ)
      → ReadsContent e text n
      → ReadsPrimary e (40 ∷ (text ++ 41 ∷ [])) (suc (suc n))
  unfolding parse_bin_op is_space is_alpha is_digit
  ReadsPrimary-of_content e text n p zero lexer c more h a = absurd (omega arith)
  ReadsPrimary-of_content e text n p (suc zero) lexer c more h a = absurd (omega arith)
  ReadsPrimary-of_content e text n p (suc (suc f)) lexer c more h a =
      let (lexer', c', r) = p f lexer (character 40) more (omega arith) in
      let inner : (text ++ 41 ∷ []) ++ more ≡ text ++ 41 ∷ more =
        append_assoc text (41 ∷ []) more in
      (
        lexer',
        character 41,
        ap (λ t. parse_primary bp (suc (suc f)) (next_token (before (40 ∷ t) lexer c))) inner
            ∙ ap (parse_primary bp (suc (suc f)))
                (next_token-text (sign 40) (text ++ 41 ∷ more) lexer c (refl, refl, refl))
            ∙ ap (λ t. bind t (λ x s. bind (expect (character 41) s) (λ _ s'. parsed x s'))) r
            ∙ ap (λ t. bind t (λ _ s'. parsed e s')) (expect-close more lexer' c'),
      )
