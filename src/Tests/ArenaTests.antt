-- ===== src/Tests/ArenaTests.antt =====
-- The theorems on the allocator, at a buffer of 2000 bytes.
use lambcalc_cpp.Base.{ℕ, ◌+◌, ◌*◌, ◌≡◌, refl, none, some, [], ◌∷◌, ◌^◌, arith}
use lambcalc_cpp.Arena.Live.{Reaches, starts, allocates, IsSound, Reaches-IsSound}
use lambcalc_cpp.Arena.{Allocator, make, allocate, padding}
use lambcalc_cpp.Arena.Bounds.{IsInside, allocate-IsInside, allocate-returns}

abbrev buffer : Allocator
buffer = make 1002 3002

allocate-IsInside_example : IsInside 4 4 10 buffer (allocate 4 4 10 buffer)
unfolding make
allocate-IsInside_example =
    allocate-IsInside 4 4 (2 ^ 62) 10 buffer refl (omega arith) (omega arith)

allocate-returns_example :
    allocate 4 4 10 buffer
    ≡ some (
      buffer.begin + padding 4 buffer.begin,
      record buffer { begin = buffer.begin + (padding 4 buffer.begin + 10 * 4) },
    )
unfolding make padding
allocate-returns_example = allocate-returns 4 4 10 buffer (omega arith) (omega arith)

-- A buffer that the elements would fill is refused.
allocate-full : allocate 4 4 10 (make 1000 1040) ≡ none
unfolding allocate make
allocate-full = refl

-- Ten integers, and a pair of pointers.
abbrev grown : ℕ → Allocator
grown begin = record { begin = begin; orig = 1002; end = 3002 }

two_pieces : Reaches 1002 3002 (grown 1064) ((1048, 16) ∷ (1004, 40) ∷ [])
unfolding make allocate padding
two_pieces = allocates 16 8 (2 ^ 61) 1 refl refl (allocates 4 4 (2 ^ 62) 10 refl refl (starts refl))

Reaches-IsSound_example : IsSound 1002 3002 (grown 1064) ((1048, 16) ∷ (1004, 40) ∷ [])
Reaches-IsSound_example = Reaches-IsSound 1002 3002 (omega arith) (omega arith) two_pieces
