-- ===== src/Arena.antt =====
-- include/arena.h: the bump allocator, with addresses of 64 bits for pointers.
pub mod Bounds
pub mod Live
use lambcalc_cpp.Base.{ℕ, ◌+◌, ◌-◌, ◌*◌, ◌/◌, ◌%◌, ◌^◌, Option, none, some, leb, if◌then◌else◌}

pub record Allocator : Type 0 where
  pub begin : ℕ
  pub orig : ℕ
  pub end : ℕ

unfoldable pub make : ℕ → ℕ → Allocator
make begin end = record { begin = begin; orig = begin; end = end }

-- `-begin_ & (alignof(T) - 1)`: as the alignment is a power of two, the remainder of the negation.
unfoldable pub padding : ℕ → ℕ → ℕ
padding align begin = (2 ^ 64 - begin) % align

-- `allocate<T>(count)`, of `sizeof(T)` and `alignof(T)`, for a `count` that is not negative; `none` is
-- `std::bad_alloc`. Where there is
-- less than the padding left, both quotients are at most 0, and no count is below them.
unfoldable pub allocate : ℕ → ℕ → ℕ → Allocator → Option (ℕ × Allocator)
unfolding padding
allocate size align count s =
    let pad = padding align s.begin in
    if leb ((s.end - s.begin - pad) / size) count
    then none
    else some (s.begin + pad, record s { begin = s.begin + (pad + count * size) })

unfoldable pub reset : Allocator → Allocator
reset s = record s { begin = s.orig }
