-- ===== src/Repl/Typed.antt =====
-- src/main.cpp: what the parser makes of printed expressions that are typed with a semicolon and the end of
-- a line behind each.
use lambcalc_cpp.Base.{
  ℕ, suc, ◌+◌, ◌*◌, ◌≤◌, ◌≡◌, refl, ◌∙◌, inl, inr, false, Bool-cases, List, [], ◌∷◌, ◌++◌, Str,
  length, length-append, ◌==◌, ==_iff, arith,
}
use lambcalc_cpp.Ast
use lambcalc_cpp.Ast.Print.{dump}
use lambcalc_cpp.Lexer
use lambcalc_cpp.Lexer.{
  Token, eof, number, identifier, fn, arrow, if_, then_, else_, character, peek, is_space, is_alpha,
  is_digit, get_token,
}
use lambcalc_cpp.Lexer.Progress.{pending}
use lambcalc_cpp.Lexer.Tokens.{at, sign, get_token-space, get_token-text}
use lambcalc_cpp.Parser
use lambcalc_cpp.Parser.{
  BindingPowers, Parsed, parsed, invalid_token, next_token, look, token_eq, decide, stop,
  application, parse_bin_op,
}
use lambcalc_cpp.Parser.Left.{left}
use lambcalc_cpp.Parser.Expression.{parse_expression}
use lambcalc_cpp.Parser.Reads.{
  before, next_token-look, next_token-text, look-text, Stops, ReadsBin-of_primary,
}
use lambcalc_cpp.Parser.RoundTrip.{HasPowers, dump-StartsArgument, dump-ReadsPrimary}
use lambcalc_cpp.Parser.RoundTrip.Need.{IsPrintable, need, need_pos, need-le-length}

-- The expressions as they are typed, in front of a text.
abbrev pub typed_before : List Ast.Exp → Str → Str
typed_before [] text = text
typed_before (e ∷ es) text = dump e ++ 59 ∷ 10 ∷ typed_before es text

abbrev pub typed : List Ast.Exp → Str
typed es = typed_before es []

pub look-newline :
    (text : List ℕ) (lexer : Lexer.Lexer) (c : Token)
    → look (before (10 ∷ text) lexer c) ≡ look (before text lexer c)
unfolding is_space
look-newline text lexer c = rw (get_token-space 10 text lexer refl)

at-pending : (text : List ℕ) (lexer : Lexer.Lexer) → pending (at text lexer) ≡ length text
at-pending [] lexer = refl
at-pending (c ∷ text) lexer = omega arith

-- Behind a parenthesis that is looked at the text is left.
look-open-left :
    (text : List ℕ) (lexer : Lexer.Lexer) (c : Token)
    → left (look (before (40 ∷ text) lexer c)).1 ≡ suc (length text)
unfolding is_space is_alpha is_digit
look-open-left text lexer c =
    let h = at-pending text lexer in
    rw (get_token-text (sign 40) text lexer (refl, refl, refl)) (omega arith)

module _ (bp : BindingPowers) where
  Stops-semicolon : (more : List ℕ) → Stops bp 0 (59 ∷ more)
  unfolding is_space is_alpha is_digit
  Stops-semicolon more lexer c = rw (look-text (sign 59) more lexer c (refl, refl, refl))

  -- A printed expression does not begin with a semicolon.
  pub look-dump :
      (e : Ast.Exp) (more : List ℕ) (lexer : Lexer.Lexer) (c : Token)
      → IsPrintable e
      → token_eq (look (before (dump e ++ 59 ∷ more) lexer c)).0 (character 59) ≡ false
  unfolding is_alpha is_digit
  look-dump e more lexer c h =
      go (look (before (dump e ++ 59 ∷ more) lexer c)).0
        (dump-StartsArgument bp e h (59 ∷ more) lexer c refl)
    where
      go : (t : Token) → decide bp 0 t ≡ application → token_eq t (character 59) ≡ false
      go eof k = refl
      go number k = refl
      go identifier k = refl
      go fn k = refl
      go arrow k = refl
      go if_ k = refl
      go then_ k = refl
      go else_ k = refl
      go (character c) k = elim (Bool-cases (c == 59)) [
        | inl e ↦
            let q : c ≡ 59 = (==_iff c 59).0 e in
            let k' : stop ≡ application = rw q at k in absurd (cc)
        | inr e ↦ e
      ]

  -- The fuel of `parse_expression` is enough behind the first token.
  enough :
      (e : Ast.Exp) (more : List ℕ) (lexer : Lexer.Lexer) (c : Token)
      → IsPrintable e
      → need e ≤ 3 * left (look (before (dump e ++ more) lexer c)).1 + 3
  unfolding dump
  enough (Ast.int_exp i) more lexer c h = omega arith
  enough (Ast.var_exp x) more lexer c h = omega arith
  enough (Ast.lam_exp x body) more lexer c h = omega (
    arith,
    need-le-length (Ast.lam_exp x body) h,
    look-open-left _ lexer c,
    length-append (dump (Ast.lam_exp x body)) more,
  )
  enough (Ast.app_exp a b) more lexer c h = omega (
    arith,
    need-le-length (Ast.app_exp a b) h,
    look-open-left _ lexer c,
    length-append (dump (Ast.app_exp a b)) more,
  )
  enough (Ast.bop_exp o a b) more lexer c h = omega (
    arith,
    need-le-length (Ast.bop_exp o a b) h,
    look-open-left _ lexer c,
    length-append (dump (Ast.bop_exp o a b)) more,
  )
  enough (Ast.if_exp x y z) more lexer c h = omega (
    arith,
    need-le-length (Ast.if_exp x y z) h,
    look-open-left _ lexer c,
    length-append (dump (Ast.if_exp x y z)) more,
  )

  -- The expression is read, and the semicolon is looked at.
  pub parse_expression-typed :
      (e : Ast.Exp) (more : List ℕ) (lexer : Lexer.Lexer) (c : Token)
      → HasPowers bp
      → IsPrintable e
      → (lexer' : Lexer.Lexer) × (c' : Token) × (parse_expression bp
            (look (before (dump e ++ 59 ∷ more) lexer c)).1
          ≡ parsed e (look (before (59 ∷ more) lexer' c')).1)
  unfolding parse_expression is_alpha is_digit
  parse_expression-typed e more lexer c powers h =
      let s = (look (before (dump e ++ 59 ∷ more) lexer c)).1 in
      let le = enough e (59 ∷ more) lexer c h in
      ReadsBin-of_primary bp e (dump e) (need e) (need_pos e) (dump-ReadsPrimary bp e powers h)
        (3 * left s + 4) 0 s lexer c (59 ∷ more) (omega arith) refl (Stops-semicolon more)
        (next_token-look (before (dump e ++ 59 ∷ more) lexer c))

  -- The semicolon and the end of the line are passed.
  pub next_token-typed :
      (more : List ℕ) (lexer : Lexer.Lexer) (c : Token)
      → next_token (look (before (59 ∷ more) lexer c)).1 ≡ before more lexer (character 59)
  unfolding is_space is_alpha is_digit
  next_token-typed more lexer c =
      next_token-look (before (59 ∷ more) lexer c)
      ∙ next_token-text (sign 59) more lexer c (refl, refl, refl)

  -- At the end of the stream an exception is thrown.
  pub parse_expression-end :
      (lexer : Lexer.Lexer) (c : Token)
      → (p : Parser.Parser) × (parse_expression bp (look (before [] lexer c)).1
          ≡ invalid_token eof p)
  unfolding parse_expression parse_bin_op get_token is_space
  parse_expression-end lexer c = (before [] lexer eof, refl)

pub look-semicolon :
    (more : List ℕ) (lexer : Lexer.Lexer) (c : Token)
    → (look (before (59 ∷ more) lexer c)).0 ≡ character 59
unfolding is_space is_alpha is_digit
look-semicolon more lexer c = look-text (sign 59) more lexer c (refl, refl, refl)

pub look-end : (lexer : Lexer.Lexer) (c : Token) → (look (before [] lexer c)).0 ≡ eof
unfolding get_token is_space
look-end lexer c = refl
