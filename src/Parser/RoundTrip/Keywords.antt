-- ===== src/Parser/RoundTrip/Keywords.antt =====
-- src/parser.cpp: the parser reads functions and conditionals between parentheses, from their parts.
use lambcalc_cpp.Base.{
  ℕ, zero, suc, ◌+◌, ◌≡◌, refl, ◌∙◌, ap, true, false, some, List, [], ◌∷◌, ◌++◌, Str, append_assoc,
  str_eq, arith,
}
use lambcalc_cpp.Ast
use lambcalc_cpp.Ast.{Bop}
use lambcalc_cpp.Lexer
use lambcalc_cpp.Lexer.{
  Token, fn, arrow, if_, then_, else_, identifier, character, is_space, is_alpha, is_digit,
  is_alnum, peek, keyword,
}
use lambcalc_cpp.Lexer.Numbers.{all}
use lambcalc_cpp.Lexer.Tokens.{word, arrow_sign, store}
use lambcalc_cpp.Parser
use lambcalc_cpp.Parser.{
  BindingPowers, parsed, bind, next_token, look, expect, token_eq, decide, operator, application,
  stop, parse_bin_op, parse_rest, parse_primary, parse_fn, parse_if, parse_parens,
}
use lambcalc_cpp.Parser.Reads.{
  before, next_token-look, next_token-text, look-text, next_token-space, look-space, expect-next,
  Stops, ReadsBin, ReadsContent, Stops-close, parse_rest-looked,
}

-- The letters of the keywords.
abbrev pub fn_text : List ℕ → List ℕ
fn_text text = 102 ∷ 110 ∷ 32 ∷ text

abbrev pub arrow_text : List ℕ → List ℕ
arrow_text text = 32 ∷ 61 ∷ 62 ∷ 32 ∷ text

abbrev pub if_text : List ℕ → List ℕ
if_text text = 105 ∷ 102 ∷ 32 ∷ text

abbrev pub then_text : List ℕ → List ℕ
then_text text = 32 ∷ 116 ∷ 104 ∷ 101 ∷ 110 ∷ 32 ∷ text

abbrev pub else_text : List ℕ → List ℕ
else_text text = 32 ∷ 101 ∷ 108 ∷ 115 ∷ 101 ∷ 32 ∷ text

-- An identifier that is no keyword.
abbrev pub IsName : Str → Type 0
IsName [] = ⊥
IsName (x ∷ xs) =
    (is_alpha (some x) ≡ true) × (all is_alnum xs ≡ true) × (keyword (x ∷ xs) ≡ identifier)

pub if_append :
    (ta tb td more : List ℕ)
    → if_text (ta ++ then_text (tb ++ else_text td)) ++ more
      ≡ if_text (ta ++ then_text (tb ++ else_text (td ++ more)))
if_append ta tb td more = ap if_text (
    append_assoc ta (then_text (tb ++ else_text td)) more
    ∙ ap (λ t. ta ++ then_text t) (append_assoc tb (else_text td) more))

expect-identifier :
    (x : Str) (text : List ℕ) (lexer : Lexer.Lexer) (c : Token)
    → IsName x
    → is_alnum (peek text) ≡ false
    → expect identifier (before (32 ∷ (x ++ text)) lexer c)
      ≡ parsed tt (before text (record lexer { identifier = x }) identifier)
expect-identifier [] text lexer c h a = absurd h
expect-identifier (x ∷ xs) text lexer c (h, hs, k) a =
    expect-next identifier (before (32 ∷ x ∷ (xs ++ text)) lexer c)
      (before text (record lexer { identifier = x ∷ xs }) identifier)
      (next_token-space (x ∷ xs ++ text) lexer c
        ∙ next_token-text (word x xs) text lexer c (h, hs, a)
        ∙ ap (before text (record lexer { identifier = x ∷ xs })) k)
      refl

module _ (bp : BindingPowers) where
  pub ReadsContent-lam :
      (x : Str) (a : Ast.Exp) (ta : List ℕ) (na : ℕ)
      → IsName x
      → ReadsBin bp a ta na
      → ReadsContent bp (Ast.lam_exp x a) (fn_text (x ++ arrow_text ta)) (na + 3)
  unfolding parse_bin_op is_alpha is_digit keyword str_eq
  ReadsContent-lam x a ta na name p zero lexer c more h = absurd (omega arith)
  ReadsContent-lam x a ta na name p (suc zero) lexer c more h = absurd (omega arith)
  ReadsContent-lam x a ta na name p (suc (suc zero)) lexer c more h = absurd (omega arith)
  ReadsContent-lam x a ta na name p (suc (suc (suc f))) lexer c more h =
      let tail = ta ++ 41 ∷ more in
      let text = x ++ arrow_text tail in
      let l₀ = store (word 102 (110 ∷ [])) lexer in
      let l₁ = record l₀ { identifier = x } in
      let e₁ = expect-identifier x (arrow_text tail) l₀ fn name refl in
      let e₂ : expect arrow (before (arrow_text tail) l₁ identifier)
          ≡ parsed tt (before (32 ∷ tail) l₁ arrow) =
        expect-next arrow (before (arrow_text tail) l₁ identifier) (before (32 ∷ tail) l₁ arrow)
          (next_token-space (61 ∷ 62 ∷ 32 ∷ tail) l₁ identifier
            ∙ next_token-text arrow_sign (32 ∷ tail) l₁ identifier tt)
          refl in
      let (l₃, c₃, r) =
        p f 0 (before (32 ∷ tail) l₁ arrow) l₁ arrow (41 ∷ more) (omega arith) refl
          (Stops-close bp 0 more) (next_token-space tail l₁ arrow) in
      let rest = parse_rest bp (suc (suc f)) 0 in
      (
        l₃,
        c₃,
        ap (λ t. parse_bin_op bp (suc (suc (suc f))) 0 (before (fn_text t) lexer c))
              (append_assoc x (arrow_text ta) (41 ∷ more))
            ∙ ap (λ t. bind (parse_primary bp (suc (suc f)) t) rest)
                (next_token-text (word 102 (110 ∷ [])) (32 ∷ text) lexer c (refl, refl, refl))
            ∙ ap (λ t. bind (bind t (λ _. parse_fn bp (suc f))) rest) e₁
            ∙ ap
                (λ t.
                  bind
                    (bind t
                      (λ _ s. bind (parse_bin_op bp f 0 s) (λ e s'. parsed (Ast.lam_exp x e) s')))
                    rest)
                e₂
            ∙ ap (λ t. bind (bind t (λ e s'. parsed (Ast.lam_exp x e) s')) rest) r
            ∙ parse_rest-looked bp (suc (suc f)) 0 (Ast.lam_exp x a) (41 ∷ more) l₃ c₃ (omega arith)
                (Stops-close bp 0 more),
      )

  -- A keyword that was looked at, with a space on both sides.
  expect-keyword :
      (x : ℕ) (xs : List ℕ) (text : List ℕ) (lexer : Lexer.Lexer) (c t : Token)
      → (is_alpha (some x) ≡ true) × (all is_alnum xs ≡ true)
      → keyword (x ∷ xs) ≡ t
      → token_eq t t ≡ true
      → expect t (look (before (32 ∷ x ∷ (xs ++ 32 ∷ text)) lexer c)).1
        ≡ parsed tt (before (32 ∷ text) (record lexer { identifier = x ∷ xs }) t)
  unfolding is_alpha is_digit
  expect-keyword x xs text lexer c t (h, hs) k same =
      let s = before (32 ∷ x ∷ (xs ++ 32 ∷ text)) lexer c in
      expect-next t (look s).1 (before (32 ∷ text) (record lexer { identifier = x ∷ xs }) t)
        (next_token-look s
          ∙ next_token-space (x ∷ (xs ++ 32 ∷ text)) lexer c
          ∙ next_token-text (word x xs) (32 ∷ text) lexer c (h, hs, refl)
          ∙ ap (before (32 ∷ text) (record lexer { identifier = x ∷ xs })) k)
        same

  Stops-word :
      (x : ℕ) (xs : List ℕ) (text : List ℕ) (t : Token)
      → (is_alpha (some x) ≡ true) × (all is_alnum xs ≡ true)
      → keyword (x ∷ xs) ≡ t
      → decide bp 0 t ≡ stop
      → Stops bp 0 (32 ∷ x ∷ (xs ++ 32 ∷ text))
  unfolding is_alpha is_digit
  Stops-word x xs text t (h, hs) k d lexer c =
      ap (λ (r : Token × Parser.Parser). decide bp 0 r.0)
        (look-space (x ∷ (xs ++ 32 ∷ text)) lexer c)
      ∙ ap (decide bp 0) (look-text (word x xs) (32 ∷ text) lexer c (h, hs, refl) ∙ k)
      ∙ d

  module _ (a b d : Ast.Exp) (ta tb td : List ℕ) (na nb nd : ℕ) (pa : ReadsBin bp a ta na)
      (pb : ReadsBin bp b tb nb) (pd : ReadsBin bp d td nd) where
    pub ReadsContent-if :
        ReadsContent bp
          (Ast.if_exp a b d)
          (if_text (ta ++ then_text (tb ++ else_text td)))
          (na + nb + nd + 3)
    unfolding parse_bin_op is_alpha is_digit keyword str_eq
    ReadsContent-if zero lexer c more h = absurd (omega arith)
    ReadsContent-if (suc zero) lexer c more h = absurd (omega arith)
    ReadsContent-if (suc (suc zero)) lexer c more h = absurd (omega arith)
    ReadsContent-if (suc (suc (suc f))) lexer c more h =
        let tail_d = td ++ 41 ∷ more in
        let tail_b = tb ++ else_text tail_d in
        let tail_a = ta ++ then_text tail_b in
        let l₀ = store (word 105 (102 ∷ [])) lexer in
        let s₀ = before (32 ∷ tail_a) l₀ if_ in
        let (l₁, c₁, r₁) =
          pa f 0 s₀ l₀ if_ (then_text tail_b) (omega arith) refl
            (Stops-word 116 (104 ∷ 101 ∷ 110 ∷ []) tail_b then_ (refl, refl) refl refl)
            (next_token-space tail_a l₀ if_) in
        let l₁' = record l₁ { identifier = 116 ∷ 104 ∷ 101 ∷ 110 ∷ [] } in
        let (l₂, c₂, r₂) =
          pb f 0 (before (32 ∷ tail_b) l₁' then_) l₁' then_ (else_text tail_d) (omega arith) refl
            (Stops-word 101 (108 ∷ 115 ∷ 101 ∷ []) tail_d else_ (refl, refl) refl refl)
            (next_token-space tail_b l₁' then_) in
        let l₂' = record l₂ { identifier = 101 ∷ 108 ∷ 115 ∷ 101 ∷ [] } in
        let (l₃, c₃, r₃) =
          pd f 0 (before (32 ∷ tail_d) l₂' else_) l₂' else_ (41 ∷ more) (omega arith) refl
            (Stops-close bp 0 more) (next_token-space tail_d l₂' else_) in
        let rest = parse_rest bp (suc (suc f)) 0 in
        let third : Ast.Exp → Ast.Exp → Ast.Exp → Parser.Parser → Parser.Parsed Ast.Exp =
          λ x y z s. parsed (Ast.if_exp x y z) s in
        let after_else : Ast.Exp → Ast.Exp → Parser.Parser → Parser.Parsed Ast.Exp =
          λ x y s. bind (parse_bin_op bp f 0 s) (third x y) in
        let second : Ast.Exp → Ast.Exp → Parser.Parser → Parser.Parsed Ast.Exp =
          λ x y s. bind (expect else_ s) (λ _. after_else x y) in
        let after_then : Ast.Exp → Parser.Parser → Parser.Parsed Ast.Exp =
          λ x s. bind (parse_bin_op bp f 0 s) (second x) in
        let first : Ast.Exp → Parser.Parser → Parser.Parsed Ast.Exp =
          λ x s. bind (expect then_ s) (λ _. after_then x) in
        (
          l₃,
          c₃,
          ap (λ t. parse_bin_op bp (suc (suc (suc f))) 0 (before t lexer c))
                (if_append ta tb td (41 ∷ more))
              ∙ ap (λ t. bind (parse_primary bp (suc (suc f)) t) rest)
                  (next_token-text (word 105 (102 ∷ [])) (32 ∷ tail_a) lexer c (refl, refl, refl))
              ∙ ap (λ t. bind (bind t first) rest) r₁
              ∙ ap (λ t. bind (bind t (λ _. after_then a)) rest)
                  (expect-keyword 116 (104 ∷ 101 ∷ 110 ∷ []) tail_b l₁ c₁ then_ (refl, refl) refl
                    refl)
              ∙ ap (λ t. bind (bind t (second a)) rest) r₂
              ∙ ap (λ t. bind (bind t (λ _. after_else a b)) rest)
                  (expect-keyword 101 (108 ∷ 115 ∷ 101 ∷ []) tail_d l₂ c₂ else_ (refl, refl) refl
                    refl)
              ∙ ap (λ t. bind (bind t (third a b)) rest) r₃
              ∙ parse_rest-looked bp (suc (suc f)) 0 (Ast.if_exp a b d) (41 ∷ more) l₃ c₃
                  (omega arith) (Stops-close bp 0 more),
        )
