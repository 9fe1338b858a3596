-- ===== src/Arena/Live.antt =====
-- include/arena.h: what is allocated between two resets.
use lambcalc_cpp.Base.{ℕ, ◌+◌, ◌*◌, ◌^◌, ◌≤◌, ◌≡◌, refl, ◌⊎◌, inr, some, List, [], ◌∷◌, arith}
use lambcalc_cpp.Arena.{Allocator, make, allocate, reset}
use lambcalc_cpp.Arena.Bounds.{IsInside, allocate-IsInside}

-- An address, and the number of bytes from it on.
abbrev pub Piece : Type 0
Piece = ℕ × ℕ

-- The allocator for the buffer from `begin` to `end` reaches a state by allocations and resets, and these
-- were allocated since the last reset, the last one first.
pub data Reaches (begin end : ℕ) : Allocator → List Piece → Type 0 where
  starts : {s : Allocator} → s ≡ make begin end → Reaches begin end s []
  allocates :
      {s s' : Allocator} {ps : List Piece} {ptr : ℕ}
      → (size align m count : ℕ) → 2 ^ 64 ≡ align * m
      → allocate size align count s ≡ some (ptr, s')
      → Reaches begin end s ps
      → Reaches begin end s' ((ptr, count * size) ∷ ps)
  resets :
      {s s' : Allocator} {ps : List Piece}
      → s' ≡ reset s
      → Reaches begin end s ps
      → Reaches begin end s' []

abbrev pub AreApart : Piece → Piece → Type 0
AreApart (p, n) (q, m) = (p + n ≤ q) ⊎ (q + m ≤ p)

abbrev pub IsApart : Piece → List Piece → Type 0
IsApart p [] = Unit
IsApart p (q ∷ qs) = AreApart p q × IsApart p qs

-- The pieces do not overlap, and lie between the two addresses.
abbrev pub AreLive : ℕ → ℕ → List Piece → Type 0
AreLive low high [] = Unit
AreLive low high ((p, n) ∷ ps) =
    (low ≤ p) × (p + n ≤ high) × IsApart (p, n) ps × AreLive low high ps

-- The state keeps its buffer, and what is live lies in front of what is free.
abbrev pub IsSound : ℕ → ℕ → Allocator → List Piece → Type 0
IsSound begin end s ps =
    (s.orig ≡ begin)
    × (s.end ≡ end)
    × (begin ≤ s.begin)
    × (s.begin ≤ end)
    × AreLive begin s.begin ps

AreLive-widen :
    (low high high' : ℕ) (ps : List Piece)
    → high ≤ high'
    → AreLive low high ps
    → AreLive low high' ps
AreLive-widen low high high' [] h k = tt
AreLive-widen low high high' ((p, n) ∷ ps) h (a, b, apart, k) =
    (a, omega arith, apart, AreLive-widen low high high' ps h k)

-- Behind what is live.
AreLive-IsApart :
    (low high p n : ℕ) (ps : List Piece) → high ≤ p → AreLive low high ps → IsApart (p, n) ps
AreLive-IsApart low high p n [] h k = tt
AreLive-IsApart low high p n ((q, m) ∷ ps) h (a, b, apart, k) =
    (inr (omega arith), AreLive-IsApart low high p n ps h k)

-- In a buffer below 2 ^ 64, whatever is allocated and reset, for alignments that divide 2 ^ 64 and counts
-- that are not negative: what was allocated since the last reset lies in the buffer, in front of what is free, and no two pieces overlap.
pub Reaches-IsSound :
    (begin end : ℕ) {s : Allocator} {ps : List Piece}
    → begin ≤ end
    → end ≤ 2 ^ 64
    → Reaches begin end s ps
    → IsSound begin end s ps
unfolding make reset
Reaches-IsSound begin end h fits (starts e) = rw (e) (refl, refl, omega arith, h, tt)
Reaches-IsSound begin end h fits (allocates {s} {s'} {ps} {ptr} size align m count d e r) =
    let (o, f, low, high, live) = Reaches-IsSound begin end h fits r in
    let inside = allocate-IsInside size align m count s d (omega arith) (omega arith) in
    let (aligned, after, grown, below, same_end, same_orig) : IsInside size align count s
        (some (ptr, s')) =
      rw e at inside in
    (
      omega arith,
      omega arith,
      omega arith,
      omega arith,
      (
        omega arith,
        omega arith,
        AreLive-IsApart begin s.begin ptr (count * size) ps after live,
        AreLive-widen begin s.begin s'.begin ps (omega arith) live,
      ),
    )
Reaches-IsSound begin end h fits (resets e r) =
    let (o, f, low, high, live) = Reaches-IsSound begin end h fits r in
    rw (e) (omega arith, omega arith, omega arith, omega arith, tt)
