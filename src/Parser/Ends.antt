-- ===== src/Parser/Ends.antt =====
-- src/parser.cpp: the parser ends, in a number of calls that what is pending in the lexer bounds.
use lambcalc_cpp.Base.{
  ℕ, zero, suc, ◌+◌, ◌*◌, ◌≤◌, ◌<◌, ◌≡◌, refl, inl, inr, Bool-cases, ◌==◌, arith,
}
use lambcalc_cpp.Ast
use lambcalc_cpp.Ast.{Bop}
use lambcalc_cpp.Lexer.{Token, eof, number, identifier, fn, arrow, if_, then_, else_, character}
use lambcalc_cpp.Parser
use lambcalc_cpp.Parser.{
  BindingPowers, Parsed, parsed, invalid_token, expected, out_of_fuel, bind, next_token, look,
  expect, token_eq, decide, operator, application, stop, parse_bin_op, parse_rest, parse_primary,
  parse_fn, parse_if, parse_parens,
}
use lambcalc_cpp.Parser.Rounds.{parse_rest-operator, parse_rest-application, parse_rest-stop}
use lambcalc_cpp.Parser.Left.{
  left, Ends, Ends-bind, Ends-weaken, next_token-left, look-left, look-next, expect-Ends,
}

module _ (bp : BindingPowers) where
  -- With this fuel the functions of the parser end.
  abbrev Bin : ℕ → Type 0
  Bin f =
      (min_bp : ℕ) (s : Parser.Parser)
      → 3 * left s + 4 ≤ f
      → Ends (left s) (parse_bin_op bp f min_bp s)

  abbrev Rest : ℕ → Type 0
  Rest f =
      (min_bp : ℕ) (lhs : Ast.Exp) (s : Parser.Parser)
      → 3 * left s + 5 ≤ f
      → Ends (suc (left s)) (parse_rest bp f min_bp lhs s)

  abbrev Primary : ℕ → Type 0
  Primary f = (s : Parser.Parser) → 3 * left s + 6 ≤ f → Ends (suc (left s)) (parse_primary bp f s)

  abbrev Compound : (ℕ → Parser.Parser → Parsed Ast.Exp) → ℕ → Type 0
  Compound p f = (s : Parser.Parser) → 3 * left s + 5 ≤ f → Ends (suc (left s)) (p f s)

  parse_primary-eof :
      (f m : ℕ) (s : Parser.Parser) (k : Ast.Exp → Parser.Parser → Parsed Ast.Exp)
      → 1 ≤ f
      → s.current_token ≡ eof
      → Ends m (bind (parse_primary bp f s) k)
  unfolding parse_bin_op
  parse_primary-eof zero m s k h e = absurd (omega arith)
  parse_primary-eof (suc f) m s k h e = rw (e) (inl refl)

  Bin-suc : (f : ℕ) → Primary f → Rest f → Bin (suc f)
  unfolding parse_bin_op
  Bin-suc f primary rest min_bp s h = elim (next_token-left s) [
    | inl (e, le) ↦ parse_primary-eof f (left s) (next_token s) _ (omega arith) e
    | inr lt ↦
        Ends-bind (suc (left (next_token s))) (left s) (parse_primary bp f (next_token s))
          (parse_rest bp f min_bp) (omega arith) (primary (next_token s) (omega arith))
          λ lhs s' q.
            Ends-weaken (suc (left s')) (left s) (parse_rest bp f min_bp lhs s') (omega arith)
              (rest min_bp lhs s' (omega arith))
  ]

  no_operator : (bop : Bop) (rbp min_bp : ℕ) → decide bp min_bp eof ≡ operator bop rbp → ⊥
  no_operator bop rbp min_bp e = cc

  Rest-suc : (f : ℕ) → Bin f → Rest f → Rest (suc f)
  Rest-suc f bin rest min_bp lhs s h = go (decide bp min_bp (look s).0) refl
    where
      s₁ : Parser.Parser
      s₁ = (look s).1

      go :
          (d : Parser.Step)
          → decide bp min_bp (look s).0 ≡ d
          → Ends (suc (left s)) (parse_rest bp (suc f) min_bp lhs s)
      go stop e = let l = look-left s in rw (parse_rest-stop bp f min_bp lhs s e) (omega arith)
      go application e =
          let l = look-left s in
          rw (parse_rest-application bp f min_bp lhs s e) (
            Ends-bind (left s₁) (suc (left s)) (parse_bin_op bp f Parser.app_rbp s₁)
              (λ rhs. parse_rest bp f min_bp (Ast.app_exp lhs rhs)) (omega arith)
              (bin Parser.app_rbp s₁ (omega arith))
              λ rhs s' q.
                Ends-weaken (suc (left s')) (suc (left s)) _ (omega arith)
                  (rest min_bp (Ast.app_exp lhs rhs) s' (omega arith)))
      go (operator bop rbp) e =
          let l = look-left s in
          let n = next_token s₁ in
          let lt : left n < left s₁ = elim (next_token-left s₁) [
            | inl (p, _) ↦
                let is_eof : (look s).0 ≡ eof = rw (look-next s) at p in
                absurd (no_operator bop rbp min_bp (rw is_eof at e))
            | inr lt ↦ lt
          ] in
          rw (parse_rest-operator bp f min_bp rbp bop lhs s e) (
            Ends-bind (left n) (suc (left s)) (parse_bin_op bp f rbp n)
              (λ rhs. parse_rest bp f min_bp (Ast.bop_exp bop lhs rhs)) (omega arith)
              (bin rbp n (omega arith))
              λ rhs s' q.
                Ends-weaken (suc (left s')) (suc (left s)) _ (omega arith)
                  (rest min_bp (Ast.bop_exp bop lhs rhs) s' (omega arith)))

  module _ (f : ℕ) (bin : Bin f) (m : ℕ) (fits : 3 * m + 1 ≤ f) where
    -- A part of a compound expression: an expression is parsed, and then a rest.
    Ends-bin :
        (s : Parser.Parser) (k : Ast.Exp → Parser.Parser → Parsed Ast.Exp)
        → left s < m
        → ((e : Ast.Exp) (s' : Parser.Parser) → left s' < m → Ends m (k e s'))
        → Ends m (bind (parse_bin_op bp f 0 s) k)
    Ends-bin s k h g =
        Ends-bind m m (parse_bin_op bp f 0 s) k (omega arith)
          (Ends-weaken (left s) m _ (omega arith) (bin 0 s (omega arith))) g

    Ends-expect :
        (t : Token) (s : Parser.Parser) (k : Unit {0} → Parser.Parser → Parsed Ast.Exp)
        → left s < m
        → ((e : Unit {0}) (s' : Parser.Parser) → left s' < m → Ends m (k e s'))
        → Ends m (bind (expect t s) k)
    Ends-expect t s k h g = Ends-bind m m (expect t s) k (omega arith) (expect-Ends t m s h) g

  parse_fn-suc : (f : ℕ) → Bin f → Compound (parse_fn bp) (suc f)
  unfolding parse_bin_op
  parse_fn-suc f bin s h =
      let m = suc (left s) in
      Ends-expect f bin m (omega arith) arrow s _ (omega arith)
        λ _ s₁ h₁. Ends-bin f bin m (omega arith) s₁ _ h₁ λ e s₂ h₂. h₂

  parse_parens-suc : (f : ℕ) → Bin f → Compound (parse_parens bp) (suc f)
  unfolding parse_bin_op
  parse_parens-suc f bin s h =
      let m = suc (left s) in
      Ends-bin f bin m (omega arith) s _ (omega arith)
        λ e s₁ h₁. Ends-expect f bin m (omega arith) (character 41) s₁ _ h₁ λ _ s₂ h₂. h₂

  parse_if-suc : (f : ℕ) → Bin f → Compound (parse_if bp) (suc f)
  unfolding parse_bin_op
  parse_if-suc f bin s h =
      let m = suc (left s) in
      Ends-bin f bin m (omega arith) s _ (omega arith) λ c s₁ h₁.
        Ends-expect f bin m (omega arith) then_ s₁ _ h₁ λ _ s₂ h₂.
          Ends-bin f bin m (omega arith) s₂ _ h₂ λ t s₃ h₃.
            Ends-expect f bin m (omega arith) else_ s₃ _ h₃
              λ _ s₄ h₄. Ends-bin f bin m (omega arith) s₄ _ h₄ λ e s₅ h₅. h₅

  Primary-suc :
      (f : ℕ)
      → Compound (parse_fn bp) f
      → Compound (parse_if bp) f
      → Compound (parse_parens bp) f
      → Primary (suc f)
  unfolding parse_bin_op
  Primary-suc f fn_ends if_ends parens_ends s h = go s.current_token refl
    where
      m : ℕ
      m = suc (left s)

      go : (t : Token) → s.current_token ≡ t → Ends (suc (left s)) (parse_primary bp (suc f) s)
      go number e = rw (e, parse_primary) (omega arith)
      go identifier e = rw (e, parse_primary) (omega arith)
      go fn e =
          rw (e, parse_primary)
            (Ends-bind m m (expect identifier s) (λ _. parse_fn bp f) (omega arith)
              (expect-Ends identifier m s (omega arith))
              λ _ s' q. Ends-weaken (suc (left s')) m _ (omega arith) (fn_ends s' (omega arith)))
      go if_ e = rw (e, parse_primary) (if_ends s (omega arith))
      go (character c) e = elim (Bool-cases (c == 40)) [
        | inl p ↦ rw (e, p, parse_primary) (parens_ends s (omega arith))
        | inr p ↦ rw (e, p, parse_primary) (inr (omega arith))
      ]
      go eof e = rw (e, parse_primary) (inr (omega arith))
      go arrow e = rw (e, parse_primary) (inr (omega arith))
      go then_ e = rw (e, parse_primary) (inr (omega arith))
      go else_ e = rw (e, parse_primary) (inr (omega arith))

  record AllEnd (f : ℕ) : Type 0 where
    bin : Bin f
    rest : Rest f
    primary : Primary f
    fn_ends : Compound (parse_fn bp) f
    if_ends : Compound (parse_if bp) f
    parens_ends : Compound (parse_parens bp) f

  all_end : (f : ℕ) → AllEnd f
  all_end zero = record {
    bin = λ m s h. absurd (omega arith);
    rest = λ m l s h. absurd (omega arith);
    primary = λ s h. absurd (omega arith);
    fn_ends = λ s h. absurd (omega arith);
    if_ends = λ s h. absurd (omega arith);
    parens_ends = λ s h. absurd (omega arith);
  }
  all_end (suc f) =
      let a = all_end f in
      record {
        bin = Bin-suc f a.primary a.rest;
        rest = Rest-suc f a.bin a.rest;
        primary = Primary-suc f a.fn_ends a.if_ends a.parens_ends;
        fn_ends = parse_fn-suc f a.bin;
        if_ends = parse_if-suc f a.bin;
        parens_ends = parse_parens-suc f a.bin;
      }

-- With a fuel of at least three times what is left to read, and 4, `parseBinOp`, and so
-- `parseExpression`, ends for each table of binding powers: an expression is parsed and less is left
-- to read than before, or an exception is thrown, at the end of the stream or with less left to read
-- than before, or an assertion fails.
pub parse_bin_op-Ends :
    (bp : BindingPowers) (f min_bp : ℕ) (s : Parser.Parser)
    → 3 * left s + 4 ≤ f
    → Ends (left s) (parse_bin_op bp f min_bp s)
parse_bin_op-Ends bp f min_bp s h = let a = all_end bp f in a.bin min_bp s h
