-- ===== src/Lower/Blocks.antt =====
-- src/lower.cpp: `lowerBlock`, where the maps have what the expression needs.
use lambcalc_cpp.Base.{
  ℕ, zero, suc, ◌+◌, ◌≤◌, ◌≡◌, refl, ◌∙◌, ap, Option, none, some, List, [], ◌∷◌, arith,
  if◌then◌else◌,
}
use lambcalc_cpp.Anf
use lambcalc_cpp.Anf.{Var}
use lambcalc_cpp.Anf.Known.{Names}
use lambcalc_cpp.Lower.Library.{Llvm}
use lambcalc_cpp.Lower.{State}
use lambcalc_cpp.Lower.Visitor.{jump_of}
use lambcalc_cpp.Lower.Module.{run, size, sizes, lower_block}
use lambcalc_cpp.Lower.Ready.{after, after_all, IsReady, AreReady, Ends-bind}
use lambcalc_cpp.Lower.Values.{Knows, Leaves}
use lambcalc_cpp.Lower.Visits.{jump_of-some, is_branch, tasks_of, bound, visit-Leaves}

size_pos : (e : Anf.Exp) → 1 ≤ size e
size_pos (Anf.halt_exp v) = omega arith
size_pos (Anf.fun_exp x ps body rest) = omega arith
size_pos (Anf.join_exp x slot body rest) = omega arith
size_pos (Anf.jump_exp x v) = omega arith
size_pos (Anf.app_exp x g vs rest) = omega arith
size_pos (Anf.bop_exp x bop u v rest) = omega arith
size_pos (Anf.tuple_exp x vs rest) = omega arith
size_pos (Anf.proj_exp x t i rest) = omega arith
size_pos (Anf.if_exp c t e) = omega arith

module _ (L : Llvm) (A N : Type 0) (B S : Names) where
  -- The worklist does not matter to the maps.
  pub with_tasks :
      (K : Names) (w w' : List Anf.Exp) (s : State L)
      → Knows L N B S K w s
      → Knows L N B S K w' (record s { worklist = w' })
  with_tasks K w w' s h = record {
    values = h.values;
    slots = h.slots;
    blocks = h.blocks;
    tasks = refl;
  }

  -- A round of the loop: `F` is known in the end if the rounds after the visit lead to it.
  round-Leaves :
      (f : ℕ) (e : Anf.Exp) (w : List Anf.Exp) (K F : Names) (s : State L)
      → Knows L N B S K (e ∷ w) s
      → IsReady A B S K e
      → ((s' : State L)
          → Knows L N B S (bound e K) (tasks_of e w) s'
          → Leaves L A N B S F [] (run L f s'))
      → Leaves L A N B S F [] (run L (suc f) s)
  unfolding run
  round-Leaves f e w K F s h r k = rw (h.tasks) (
      Ends-bind A N (Knows L N B S (bound e K) (tasks_of e w)) (Knows L N B S F []) _ (run L f)
        (visit-Leaves L A N B S K w e (record s { worklist = w }) (with_tasks K (e ∷ w) w s h) r) k)

  -- The rounds behind the branches.
  after_branches-Leaves :
      (t e : Anf.Exp) (w : List Anf.Exp) (K : Names) (f : ℕ) (s : State L)
      (j k : Option (Var × Option Anf.Value))
      → ((w' : List Anf.Exp)
          → Knows L N B S K w' s
          → sizes w' ≤ f
          → AreReady A B S K w'
          → Leaves L A N B S (after_all w' K) [] (run L f s))
      → jump_of t ≡ j
      → jump_of e ≡ k
      → size t + size e + sizes w ≤ f
      → AreReady A B S K (e ∷ t ∷ w)
      → Knows L N B S K (if is_branch j k then w else e ∷ t ∷ w) s
      → Leaves L A N B S (after_all w (after t (after e K))) [] (run L f s)
  after_branches-Leaves t e w K f s (some (x, u)) (some (y, v)) rounds p q le (re, (rt, rs)) h =
      let none_bound : after t (after e K) ≡ K =
        ap (λ t. after t (after e K)) (jump_of-some t x u p)
        ∙ ap (λ e. after e K) (jump_of-some e y v q) in
      rw (none_bound) (rounds w h (omega arith) (rw none_bound at rs))
  after_branches-Leaves t e w K f s (some j) none rounds p q le r h =
      rounds (e ∷ t ∷ w) h (omega arith) r
  after_branches-Leaves t e w K f s none k rounds p q le r h = rounds (e ∷ t ∷ w) h (omega arith) r

  pub run-Leaves :
      (f : ℕ) (w : List Anf.Exp) (K : Names) (s : State L)
      → Knows L N B S K w s
      → sizes w ≤ f
      → AreReady A B S K w
      → Leaves L A N B S (after_all w K) [] (run L f s)
  unfolding run
  run-Leaves zero [] K s h le r = rw (h.tasks) (with_tasks K [] [] s h)
  run-Leaves (suc f) [] K s h le r = rw (h.tasks) (with_tasks K [] [] s h)
  run-Leaves zero (e ∷ w) K s h le r = let p = size_pos e in absurd (omega arith)
  run-Leaves (suc f) (Anf.halt_exp v ∷ w) K s h le (r, rs) =
      round-Leaves f (Anf.halt_exp v) w K _ s h r (λ s' h'. run-Leaves f w K s' h' (omega arith) rs)
  run-Leaves (suc f) (Anf.fun_exp x ps body rest ∷ w) K s h le (r, rs) =
      round-Leaves f (Anf.fun_exp x ps body rest) w K _ s h r
        (λ s' h'. run-Leaves f w K s' h' (omega arith) rs)
  run-Leaves (suc f) (Anf.join_exp x slot body rest ∷ w) K s h le (r, rs) =
      round-Leaves f (Anf.join_exp x slot body rest) w K _ s h r
        (λ s' h'. run-Leaves f w K s' h' (omega arith) rs)
  run-Leaves (suc f) (Anf.jump_exp x v ∷ w) K s h le (r, rs) =
      round-Leaves f (Anf.jump_exp x v) w K _ s h r
        (λ s' h'. run-Leaves f w K s' h' (omega arith) rs)
  run-Leaves (suc f) (Anf.app_exp x g vs rest ∷ w) K s h le ((k, ks, r), rs) =
      round-Leaves f (Anf.app_exp x g vs rest) w K _ s h (k, ks, r)
        (λ s' h'. run-Leaves f (rest ∷ w) _ s' h' (omega arith) (r, rs))
  run-Leaves (suc f) (Anf.bop_exp x bop u v rest ∷ w) K s h le ((k, l, r), rs) =
      round-Leaves f (Anf.bop_exp x bop u v rest) w K _ s h (k, l, r)
        (λ s' h'. run-Leaves f (rest ∷ w) _ s' h' (omega arith) (r, rs))
  run-Leaves (suc f) (Anf.tuple_exp x vs rest ∷ w) K s h le ((ks, r), rs) =
      round-Leaves f (Anf.tuple_exp x vs rest) w K _ s h (ks, r)
        (λ s' h'. run-Leaves f (rest ∷ w) _ s' h' (omega arith) (r, rs))
  run-Leaves (suc f) (Anf.proj_exp x t i rest ∷ w) K s h le ((k, r), rs) =
      round-Leaves f (Anf.proj_exp x t i rest) w K _ s h (k, r)
        (λ s' h'. run-Leaves f (rest ∷ w) _ s' h' (omega arith) (r, rs))
  run-Leaves (suc f) (Anf.if_exp c t e ∷ w) K s h le ((k, re, rt), rs) =
      round-Leaves f (Anf.if_exp c t e) w K _ s h (k, re, rt)
        (λ s' h'.
          after_branches-Leaves t e w K f s' (jump_of t) (jump_of e)
            (λ w' h le r. run-Leaves f w' K s' h le r) refl refl (omega arith) (re, (rt, rs)) h')

  pub lower_block-Leaves :
      (e : Anf.Exp) (K : Names) (s : State L)
      → Knows L N B S K [] s
      → IsReady A B S K e
      → Leaves L A N B S (after e K) [] (lower_block L e s)
  unfolding lower_block
  lower_block-Leaves e K s h r =
      rw (h.tasks) (run-Leaves _ (e ∷ []) K _ (with_tasks K [] (e ∷ []) s h) (omega arith) (r, tt))
