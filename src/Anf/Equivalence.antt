-- ===== src/Anf/Equivalence.antt =====
-- `convertDefunc` and the recursive `convert` of src/anf.cpp.
use lambcalc_cpp.Base.{ℕ, zero, suc, ◌<◌, ◌≡◌, refl, Option, some, arith}
use lambcalc_cpp.Ast
use lambcalc_cpp.Anf
use lambcalc_cpp.Anf.Monad.{Outcome, bind-pure}
use lambcalc_cpp.Anf.Convert.{convert}
use lambcalc_cpp.Anf.Defunc
use lambcalc_cpp.Anf.Defunc.{convert_defunc}
use lambcalc_cpp.Anf.Simulation.{meaning, after}
use lambcalc_cpp.Anf.Simulation.Failure.{IsLocal, Agrees, Agrees-refl, Agrees-trans}
use lambcalc_cpp.Anf.Simulation.Rounds.{step-meaning}
use lambcalc_cpp.Anf.Simulation.Measure.{state_rounds, IsProgress, step-IsProgress}

-- The loop ended, with an outcome that agrees with the one expected.
abbrev pub Ends : Option (Outcome Anf.Exp) → Outcome Anf.Exp → Type 0
Ends result expected = (o : Outcome Anf.Exp) × (result ≡ some o) × Agrees expected o

resume-Ends :
    (fuel m : ℕ) (r : Defunc.Round)
    → ((s : Defunc.State)
        → state_rounds s < fuel
        → IsLocal s.value
        → Ends (Defunc.run fuel s) (meaning s))
    → m < suc fuel
    → IsProgress m r
    → Ends (Defunc.resume (Defunc.run fuel) r) (after r)
resume-Ends fuel m (Defunc.next s) ih h (l, smaller) = ih s (omega arith) l
resume-Ends fuel m (Defunc.ends o) ih h p = (o, refl, Agrees-refl o)

-- With fuel above the measure the loop ends, with an outcome that agrees with what was to be done.
pub run-Ends :
    (fuel : ℕ) (s : Defunc.State)
    → state_rounds s < fuel
    → IsLocal s.value
    → Ends (Defunc.run fuel s) (meaning s)
unfolding Defunc.run
run-Ends zero s h l = absurd (omega arith)
run-Ends (suc fuel) s h l =
    let (o, e, a) = resume-Ends fuel _ (Defunc.step s) (run-Ends fuel) h (step-IsProgress s l) in
    (o, e, Agrees-trans _ _ o (step-meaning s l) a)

-- The loop of `convertDefunc` ends within its bound; it returns the expression and leaves the
-- counter of `convert` if that returns, and throws if that throws.
pub convert_defunc-Agrees : (root : Ast.Exp) (n : ℕ) → Ends (convert_defunc root n) (convert root n)
unfolding convert_defunc convert
convert_defunc-Agrees root n =
    let (o, e, a) = run-Ends (suc (Defunc.rounds root)) (Defunc.start root n) (omega arith) tt in
    (o, e, rw bind-pure at a)
