-- ===== src/Anf/Preserves.antt =====
-- src/anf.cpp: what an expression evaluates to, and what its conversion results in.
pub mod Values
pub mod Steps
pub mod Calls
pub mod Branches
use lambcalc_cpp.Base.{◌≡◌, refl, none, some, List, [], ◌∷◌, ℕ, ℤ, Str}
use lambcalc_cpp.Ast
use lambcalc_cpp.Ast.{Bop}
use lambcalc_cpp.Ast.Semantics as Source
use lambcalc_cpp.Ast.Semantics.{
  Evaluates, int_exp, var_exp, lam_exp, app_exp, bop_exp, if_then, if_else,
}
use lambcalc_cpp.Anf
use lambcalc_cpp.Anf.Monad.{done}
use lambcalc_cpp.Anf.Convert.{convert}
use lambcalc_cpp.Anf.Names.{IsNamed}
use lambcalc_cpp.Anf.Semantics.{Value, int, empty, Runs, no_joins}
use lambcalc_cpp.VarSet.{contains}
use lambcalc_cpp.Anf.Preserves.Values.{Related, ints, Agree, AreOwn, halt}
use lambcalc_cpp.Anf.Preserves.Steps.{
  RunsTo, Simulates, Continues-halt, Simulates-int, Simulates-var, Simulates-lam,
}
use lambcalc_cpp.Anf.Preserves.Calls.{Simulates-app, Simulates-bop}
use lambcalc_cpp.Anf.Preserves.Branches.{Simulates-then, Simulates-else}

Related-integer : (i : ℤ) (w : Value) → Related (Source.int i) w → w ≡ int i
Related-integer i _ (ints _) = refl

module _ (op : Bop → ℤ → ℤ → ℤ) where
  Evaluates-Simulates :
      (ρ : Source.Env) (e : Ast.Exp) (v : Source.Value) → Evaluates op ρ e v → Simulates op ρ e v
  Evaluates-Simulates ρ _ _ (int_exp i) = Simulates-int op ρ i
  Evaluates-Simulates ρ _ v (var_exp x p) = Simulates-var op ρ x v p
  Evaluates-Simulates ρ _ _ (lam_exp x body) = Simulates-lam op ρ x body
  Evaluates-Simulates ρ _ v
        (app_exp {ρ' = ρ'} {x = x} {fn = fn} {arg = arg} {body = body} {u = u} hf ha hb) =
      Simulates-app op ρ ρ' x fn arg body u v
        (Evaluates-Simulates ρ fn (Source.closure x body ρ') hf) (Evaluates-Simulates ρ arg u ha)
        (Evaluates-Simulates (Source.bind x u ρ') body v hb)
  Evaluates-Simulates ρ _ _ (bop_exp {bop = bop} {a = a} {b = b} {i = i} {j = j} ha hb) =
      Simulates-bop op ρ bop a b i j (Evaluates-Simulates ρ a (Source.int i) ha)
        (Evaluates-Simulates ρ b (Source.int j) hb)
  Evaluates-Simulates ρ _ v (if_then {c = c} {t = t} {e = e} {i = i} hc z ht) =
      Simulates-then op ρ c t e i v z (Evaluates-Simulates ρ c (Source.int i) hc)
        (Evaluates-Simulates ρ t v ht)
  Evaluates-Simulates ρ _ v (if_else {c = c} {t = t} {e = e} {i = i} hc z he) =
      Simulates-else op ρ c t e i v z (Evaluates-Simulates ρ c (Source.int i) hc)
        (Evaluates-Simulates ρ e v he)

  -- A conversion of an expression that evaluates to an integer results in the integer.
  pub convert-Runs :
      (e : Ast.Exp) (n m : ℕ) (r : Anf.Exp) (i : ℤ)
      → IsNamed [] e
      → Evaluates op Source.empty e (Source.int i)
      → convert e n ≡ done r m
      → Runs op no_joins empty r (int i)
  unfolding convert contains
  convert-Runs e n m r i named h conv =
      let a : Agree [] Source.empty empty = record {
        value = λ y. int i;
        found = λ y v c p. absurd (cc);
        related = λ y v c p. absurd (cc);
      } in
      let run =
        Evaluates-Simulates Source.empty e (Source.int i) h [] no_joins empty halt n
          (Related (Source.int i)) (λ y c. absurd (cc)) named a
          (Continues-halt op no_joins empty n (Source.int i)) in
      let (w, runs, s) = rw conv at run in rw (Related-integer i w s) at runs
