-- ===== src/Parser/RoundTrip/Contents.antt =====
-- src/parser.cpp: the parser reads each kind of expression between parentheses, from its parts.
use lambcalc_cpp.Base.{
  ℕ, zero, suc, ◌+◌, ◌≤◌, ◌≡◌, refl, ◌∙◌, ap, false, List, [], ◌∷◌, ◌++◌, append_assoc, arith,
}
use lambcalc_cpp.Ast
use lambcalc_cpp.Ast.{Bop}
use lambcalc_cpp.Lexer
use lambcalc_cpp.Lexer.{
  Token, fn, arrow, if_, then_, else_, identifier, character, is_space, is_alpha, is_digit,
  is_alnum, peek, keyword,
}
use lambcalc_cpp.Lexer.Tokens.{sign, IsFollowedBy}
use lambcalc_cpp.Parser
use lambcalc_cpp.Parser.{
  BindingPowers, parsed, bind, next_token, look, expect, token_eq, decide, operator, application,
  stop, parse_bin_op, parse_rest, parse_primary, parse_fn, parse_if, parse_parens,
}
use lambcalc_cpp.Parser.Rounds.{parse_rest-operator, parse_rest-application}
use lambcalc_cpp.Parser.Reads.{
  before, next_token-look, next_token-text, look-text, next_token-space, look-space, ReadsPrimary,
  ReadsBin, ReadsContent, Stops-close, parse_rest-looked,
}

module _ (bp : BindingPowers) where
  -- The text begins with a token that the loop of `parseBinOp` takes for an argument.
  abbrev pub StartsArgument : List ℕ → Type 0
  StartsArgument text =
      (more : List ℕ) (lexer : Lexer.Lexer) (c : Token)
      → is_alnum (peek more) ≡ false
      → decide bp 0 (look (before (text ++ more) lexer c)).0 ≡ application

  module _ (a b : Ast.Exp) (ta tb : List ℕ) (na nb : ℕ) (pos_a : 1 ≤ na)
      (pa : ReadsPrimary bp a ta na) (pb : ReadsBin bp b tb nb) where
    pub ReadsContent-app :
        StartsArgument tb → ReadsContent bp (Ast.app_exp a b) (ta ++ 32 ∷ tb) (na + nb + 3)
    unfolding parse_bin_op is_alpha is_digit
    ReadsContent-app starts zero lexer c more h = absurd (omega arith)
    ReadsContent-app starts (suc zero) lexer c more h = absurd (omega arith)
    ReadsContent-app starts (suc (suc f)) lexer c more h =
        let tail = tb ++ 41 ∷ more in
        let (l₁, c₁, r₁) = pa (suc f) lexer c (32 ∷ tail) (omega arith) refl in
        let s₁ = before (32 ∷ tail) l₁ c₁ in
        let (l₂, c₂, r₂) =
          pb f Parser.app_rbp (look s₁).1 l₁ c₁ (41 ∷ more) (omega arith) refl
            (Stops-close bp Parser.app_rbp more)
            (next_token-look s₁ ∙ next_token-space tail l₁ c₁) in
        let argument : decide bp 0 (look s₁).0 ≡ application =
          ap (λ (r : Token × Parser.Parser). decide bp 0 r.0) (look-space tail l₁ c₁)
          ∙ starts (41 ∷ more) l₁ c₁ refl in
        (
          l₂,
          c₂,
          ap (λ t. parse_bin_op bp (suc (suc f)) 0 (before t lexer c))
                (append_assoc ta (32 ∷ tb) (41 ∷ more))
              ∙ ap (λ t. bind t (parse_rest bp (suc f) 0)) r₁
              ∙ parse_rest-application bp f 0 a s₁ argument
              ∙ ap (λ t. bind t (λ rhs. parse_rest bp f 0 (Ast.app_exp a rhs))) r₂
              ∙ parse_rest-looked bp f 0 (Ast.app_exp a b) (41 ∷ more) l₂ c₂ (omega arith)
                  (Stops-close bp 0 more),
        )

    -- An operator of one character, with its binding power on the right.
    pub ReadsContent-bop :
        (o : Bop) (k r : ℕ)
        → IsFollowedBy (sign k) []
        → decide bp 0 (character k) ≡ operator o r
        → ReadsContent bp (Ast.bop_exp o a b) (ta ++ 32 ∷ k ∷ 32 ∷ tb) (na + nb + 3)
    unfolding parse_bin_op is_alpha is_digit
    ReadsContent-bop o k r i d zero lexer c more h = absurd (omega arith)
    ReadsContent-bop o k r i d (suc zero) lexer c more h = absurd (omega arith)
    ReadsContent-bop o k r i d (suc (suc f)) lexer c more h =
        let tail = tb ++ 41 ∷ more in
        let (l₁, c₁, r₁) = pa (suc f) lexer c (32 ∷ k ∷ 32 ∷ tail) (omega arith) refl in
        let s₁ = before (32 ∷ k ∷ 32 ∷ tail) l₁ c₁ in
        let step : next_token (look s₁).1 ≡ before (32 ∷ tail) l₁ (character k) =
          next_token-look s₁
          ∙ next_token-space (k ∷ 32 ∷ tail) l₁ c₁
          ∙ next_token-text (sign k) (32 ∷ tail) l₁ c₁ i in
        let (l₂, c₂, r₂) =
          pb f r (next_token (look s₁).1) l₁ (character k) (41 ∷ more) (omega arith) refl
            (Stops-close bp r more) (ap next_token step ∙ next_token-space tail l₁ (character k)) in
        let decides : decide bp 0 (look s₁).0 ≡ operator o r =
          ap (λ (t : Token × Parser.Parser). decide bp 0 t.0) (look-space (k ∷ 32 ∷ tail) l₁ c₁)
          ∙ ap (decide bp 0) (look-text (sign k) (32 ∷ tail) l₁ c₁ i)
          ∙ d in
        (
          l₂,
          c₂,
          ap (λ t. parse_bin_op bp (suc (suc f)) 0 (before t lexer c))
                (append_assoc ta (32 ∷ k ∷ 32 ∷ tb) (41 ∷ more))
              ∙ ap (λ t. bind t (parse_rest bp (suc f) 0)) r₁
              ∙ parse_rest-operator bp f 0 r o a s₁ decides
              ∙ ap (λ t. bind t (λ rhs. parse_rest bp f 0 (Ast.bop_exp o a rhs))) r₂
              ∙ parse_rest-looked bp f 0 (Ast.bop_exp o a b) (41 ∷ more) l₂ c₂ (omega arith)
                  (Stops-close bp 0 more),
        )
