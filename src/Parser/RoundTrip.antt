-- ===== src/Parser/RoundTrip.antt =====
-- src/parser.cpp and src/visitor.cpp: what is printed is parsed back.
pub mod Contents
pub mod Keywords
pub mod Need
use lambcalc_cpp.Base.{
  ℕ, zero, suc, ◌+◌, ◌≤◌, ◌≡◌, refl, ◌∙◌, sym, ap, Bool, true, false, Option, none, some, List, [],
  ◌∷◌, ◌++◌, Str, pos, negsuc, int_to_string, append_assoc, ltb, length, length-append, ◌==◌, arith,
  if◌then◌else◌,
}
use lambcalc_cpp.Ast
use lambcalc_cpp.Ast.{Bop, plus, minus, times}
use lambcalc_cpp.Ast.Print.{dump, bin_op_string}
use lambcalc_cpp.Lexer
use lambcalc_cpp.Lexer.{
  Token, number, identifier, character, is_space, is_alpha, is_digit, is_alnum, peek, keyword,
  fits_int, to_int,
}
use lambcalc_cpp.Lexer.Numbers.{to_string-cons}
use lambcalc_cpp.Lexer.Tokens.{Lexeme, word, numeral, sign, store, at}
use lambcalc_cpp.Parser
use lambcalc_cpp.Parser.{
  BindingPowers, Parsed, decide, operator, application, stop, operator_step, parse_bin_op,
  parse_primary,
}
use lambcalc_cpp.Parser.Reads.{
  before, next_token-text, look-text, ReadsPrimary, ReadsBin, ReadsContent, ReadsBin-of_primary,
  ReadsPrimary-of_content,
}
use lambcalc_cpp.Parser.RoundTrip.Contents.{StartsArgument, ReadsContent-app, ReadsContent-bop}
use lambcalc_cpp.Parser.RoundTrip.Need.{IsPrintable, need, need_pos}
use lambcalc_cpp.Parser.RoundTrip.Keywords.{
  IsName, ReadsContent-lam, ReadsContent-if, arrow_text, fn_text, if_text, then_text, else_text,
  if_append,
}

-- Each operator is an infix operator.
abbrev pub HasPowers : BindingPowers → Type 0
HasPowers bp = (o : Bop) → (l : ℕ) × (r : ℕ) × (bp o ≡ some (l, r))

module _ (bp : BindingPowers) where
  operator_step_lem : (o : Bop) (l r : ℕ) → operator_step 0 o (some (l, r)) ≡ operator o r
  operator_step_lem o l r = ground arith

  StartsArgument-open : (text : List ℕ) → StartsArgument bp (40 ∷ text)
  unfolding is_space is_alpha is_digit
  StartsArgument-open text more lexer c a =
      ap (decide bp 0) (look-text (sign 40) (text ++ more) lexer c (refl, refl, refl))

  StartsArgument-name : (x : Str) → IsName x → StartsArgument bp x
  StartsArgument-name [] h more lexer c a = absurd h
  StartsArgument-name (x ∷ xs) (h, hs, k) more lexer c a =
      ap (decide bp 0) (look-text (word x xs) more lexer c (h, hs, a) ∙ k)

  alnum-digit : (c : Option ℕ) → is_alnum c ≡ false → is_digit c ≡ false
  alnum-digit c h = ground arith

  pub dump-StartsArgument : (e : Ast.Exp) → IsPrintable e → StartsArgument bp (dump e)
  unfolding dump int_to_string
  dump-StartsArgument (Ast.int_exp (pos n)) h more lexer c a =
      ap (decide bp 0) (look-text (numeral n) more lexer c (h, alnum-digit (peek more) a))
  dump-StartsArgument (Ast.int_exp (negsuc n)) h more lexer c a = absurd h
  dump-StartsArgument (Ast.var_exp x) h more lexer c a = StartsArgument-name x h more lexer c a
  dump-StartsArgument (Ast.lam_exp x body) h more lexer c a =
      StartsArgument-open (fn_text (x ++ (arrow_text (dump body ++ 41 ∷ [])))) more lexer c a
  dump-StartsArgument (Ast.app_exp x y) h more lexer c a =
      StartsArgument-open (dump x ++ 32 ∷ (dump y ++ 41 ∷ [])) more lexer c a
  dump-StartsArgument (Ast.bop_exp o x y) h more lexer c a =
      StartsArgument-open (dump x ++ 32 ∷ (bin_op_string o ++ 32 ∷ (dump y ++ 41 ∷ []))) more lexer
        c a
  dump-StartsArgument (Ast.if_exp x y z) h more lexer c a =
      StartsArgument-open (if_text (dump x ++ then_text (dump y ++ else_text (dump z ++ 41 ∷ []))))
        more lexer c a

  ReadsPrimary-int :
      (n : ℕ) → fits_int n ≡ true → ReadsPrimary bp (Ast.int_exp (pos n)) (int_to_string (pos n)) 1
  unfolding parse_bin_op int_to_string
  ReadsPrimary-int n fits zero lexer c more h a = absurd (omega arith)
  ReadsPrimary-int n fits (suc f) lexer c more h a = (
    record lexer { number_value = pos n },
    number,
    ap (parse_primary bp (suc f))
        (next_token-text (numeral n) more lexer c (fits, alnum-digit (peek more) a)),
  )

  ReadsPrimary-var : (x : Str) → IsName x → ReadsPrimary bp (Ast.var_exp x) x 1
  unfolding parse_bin_op
  ReadsPrimary-var [] name f lexer c more h a = absurd name
  ReadsPrimary-var (x ∷ xs) name zero lexer c more h a = absurd (omega arith)
  ReadsPrimary-var (x ∷ xs) (i, is, k) (suc f) lexer c more h a =
      let l = record lexer { identifier = x ∷ xs } in
      (
        l,
        identifier,
        ap (parse_primary bp (suc f))
            (next_token-text (word x xs) more lexer c (i, is, a) ∙ ap (before more l) k),
      )

  -- Parentheses around a content, which are the printed form.
  ReadsPrimary-parens :
      (e : Ast.Exp) (text : List ℕ) (n m : ℕ) (printed : Str)
      → ReadsContent bp e text n
      → suc (suc n) ≤ m
      → printed ≡ 40 ∷ (text ++ 41 ∷ [])
      → ReadsPrimary bp e printed m
  ReadsPrimary-parens e text n m printed p le eq f lexer c more h a =
      rw (eq) (ReadsPrimary-of_content bp e text n p f lexer c more (omega arith) a)

  module _ (powers : HasPowers bp) (a b : Ast.Exp) (pa : ReadsPrimary bp a (dump a) (need a))
      (pb : ReadsPrimary bp b (dump b) (need b)) where
    ReadsPrimary-bop :
        (o : Bop) (k : ℕ)
        → is_space (some k) ≡ false
        → is_alnum (some k) ≡ false
        → (k == 61) ≡ false
        → decide bp 0 (character k) ≡ operator_step 0 o (bp o)
        → bin_op_string o ≡ k ∷ []
        → ReadsPrimary bp (Ast.bop_exp o a b) (dump (Ast.bop_exp o a b)) (need a + need b + 6)
    unfolding dump
    ReadsPrimary-bop o k i₁ i₂ i₃ d printed =
        let (l, r, q) = powers o in
        ReadsPrimary-parens (Ast.bop_exp o a b) (dump a ++ 32 ∷ k ∷ 32 ∷ dump b)
          (need a + suc (need b) + 3) (need a + need b + 6) (dump (Ast.bop_exp o a b))
          (ReadsContent-bop bp a b (dump a) (dump b) (need a) (suc (need b)) (need_pos a) pa
            (ReadsBin-of_primary bp b (dump b) (need b) (need_pos b) pb) o k r (i₁, i₂, i₃)
            (d ∙ ap (operator_step 0 o) q ∙ operator_step_lem o l r))
          (omega arith)
          (ap (λ t. 40 ∷ (dump a ++ 32 ∷ (t ++ 32 ∷ (dump b ++ 41 ∷ [])))) printed
            ∙ ap (λ t. 40 ∷ t) (sym (append_assoc (dump a) (32 ∷ k ∷ 32 ∷ dump b) (41 ∷ []))))

  pub dump-ReadsPrimary :
      (e : Ast.Exp) → HasPowers bp → IsPrintable e → ReadsPrimary bp e (dump e) (need e)
  unfolding dump is_space is_alpha is_digit
  dump-ReadsPrimary (Ast.int_exp (pos n)) powers h = ReadsPrimary-int n h
  dump-ReadsPrimary (Ast.int_exp (negsuc n)) powers h = absurd h
  dump-ReadsPrimary (Ast.var_exp x) powers h = ReadsPrimary-var x h
  dump-ReadsPrimary (Ast.lam_exp x body) powers (name, h) =
      ReadsPrimary-parens (Ast.lam_exp x body) (fn_text (x ++ arrow_text (dump body)))
        (suc (need body) + 3) (need body + 6) (dump (Ast.lam_exp x body))
        (ReadsContent-lam bp x body (dump body) (suc (need body)) name (
          ReadsBin-of_primary bp body (dump body) (need body) (need_pos body)
            (dump-ReadsPrimary body powers h)))
        (omega arith)
        (ap (λ t. 40 ∷ fn_text t) (sym (append_assoc x (arrow_text (dump body)) (41 ∷ []))))
  dump-ReadsPrimary (Ast.app_exp a b) powers (ha, hb) =
      ReadsPrimary-parens (Ast.app_exp a b) (dump a ++ 32 ∷ dump b) (need a + suc (need b) + 3)
        (need a + need b + 6) (dump (Ast.app_exp a b))
        (ReadsContent-app bp a b (dump a) (dump b) (need a) (suc (need b)) (need_pos a)
          (dump-ReadsPrimary a powers ha)
          (ReadsBin-of_primary bp b (dump b) (need b) (need_pos b) (dump-ReadsPrimary b powers hb))
          (dump-StartsArgument b hb))
        (omega arith) (ap (λ t. 40 ∷ t) (sym (append_assoc (dump a) (32 ∷ dump b) (41 ∷ []))))
  dump-ReadsPrimary (Ast.bop_exp plus a b) powers (ha, hb) =
      ReadsPrimary-bop powers a b (dump-ReadsPrimary a powers ha) (dump-ReadsPrimary b powers hb)
        plus 43 refl refl refl refl refl
  dump-ReadsPrimary (Ast.bop_exp minus a b) powers (ha, hb) =
      ReadsPrimary-bop powers a b (dump-ReadsPrimary a powers ha) (dump-ReadsPrimary b powers hb)
        minus 45 refl refl refl refl refl
  dump-ReadsPrimary (Ast.bop_exp times a b) powers (ha, hb) =
      ReadsPrimary-bop powers a b (dump-ReadsPrimary a powers ha) (dump-ReadsPrimary b powers hb)
        times 42 refl refl refl refl refl
  dump-ReadsPrimary (Ast.if_exp c t e) powers (hc, ht, he) =
      let bin = λ (x : Ast.Exp) (p : ReadsPrimary bp x (dump x) (need x)).
        ReadsBin-of_primary bp x (dump x) (need x) (need_pos x) p in
      ReadsPrimary-parens (Ast.if_exp c t e)
        (if_text (dump c ++ then_text (dump t ++ else_text (dump e))))
        (suc (need c) + suc (need t) + suc (need e) + 3) (need c + need t + need e + 8)
        (dump (Ast.if_exp c t e))
        (ReadsContent-if bp c t e (dump c) (dump t) (dump e) (suc (need c)) (suc (need t))
          (suc (need e)) (bin c (dump-ReadsPrimary c powers hc))
          (bin t (dump-ReadsPrimary t powers ht)) (bin e (dump-ReadsPrimary e powers he)))
        (omega arith) (ap (λ t. 40 ∷ t) (sym (if_append (dump c) (dump t) (dump e) (41 ∷ []))))
