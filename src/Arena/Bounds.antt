-- ===== src/Arena/Bounds.antt =====
-- include/arena.h: what is allocated is aligned and inside of the buffer.
use native.Mathlib.Nat.{
  div-add-mod, mul-add-mod_self_left, mul-mod_right, div-mul-le_self, mul-le-mul_right,
  le-div_iff_mul-le,
}
use lambcalc_cpp.Base.{
  ℕ, zero, suc, ◌+◌, ◌-◌, ◌*◌, ◌/◌, ◌%◌, ◌^◌, ◌≤◌, ◌<◌, ◌≡◌, refl, ◌∙◌, sym, ap, inl, inr, false,
  Bool-cases, Option, none, some, leb, arith,
}
use lambcalc_cpp.Arena.{Allocator, allocate, padding}

-- The address after the padding is a multiple of the alignment.
padding-aligned :
    (align m begin : ℕ)
    → 2 ^ 64 ≡ align * m
    → begin ≤ 2 ^ 64
    → (begin + padding align begin) % align ≡ 0
unfolding padding
padding-aligned align m begin h fits =
    let r = (2 ^ 64 - begin) % align in
    let q = (2 ^ 64 - begin) / align in
    let split : align * q + r ≡ 2 ^ 64 - begin = div-add-mod (2 ^ 64 - begin) align in
    let whole : align * q + (begin + r) ≡ align * m = omega arith in
    sym (mul-add-mod_self_left align q (begin + r))
    ∙ ap (λ x. x % align) whole
    ∙ mul-mod_right align m

-- An allocation is aligned, lies between the old and the new start of what is free, and that does not
-- pass the end.
abbrev pub IsInside : ℕ → ℕ → ℕ → Allocator → Option (ℕ × Allocator) → Type 0
IsInside size align count s none = Unit
IsInside size align count s (some (ptr, s')) =
    (ptr % align ≡ 0)
    × (s.begin ≤ ptr)
    × (s'.begin ≡ ptr + count * size)
    × (s'.begin ≤ s.end)
    × (s'.end ≡ s.end)
    × (s'.orig ≡ s.orig)

-- In a buffer below 2 ^ 64, for an alignment that divides 2 ^ 64 and a count that is not negative, what
-- `allocate` returns starts at a multiple of the alignment at or behind the start of what is free, and
-- takes `count * size` bytes, up to the new start, which does not pass the end; the buffer stays the same.
pub allocate-IsInside :
    (size align m count : ℕ) (s : Allocator)
    → 2 ^ 64 ≡ align * m
    → s.begin ≤ s.end
    → s.end ≤ 2 ^ 64
    → IsInside size align count s (allocate size align count s)
unfolding allocate
allocate-IsInside size align m count s h le fits =
    let pad = padding align s.begin in
    let room = s.end - s.begin - pad in
    elim (Bool-cases (leb (room / size) count)) [
      | inl e ↦ rw (e, allocate) tt
      | inr e ↦
          let below : suc count ≤ room / size = ground arith in
          let inside : suc count * size ≤ room / size * size = mul-le-mul_right size below in
          let whole : room / size * size ≤ room = div-mul-le_self room size in
          let grown : suc count * size ≡ count * size + size = omega arith in
          let some_room : 0 < room = has_room room size count below in
          rw (e, allocate)
            (
              padding-aligned align m s.begin h (omega arith),
              omega arith,
              omega arith,
              omega arith,
              refl,
              refl,
            )
    ]
  where
    has_room : (room size count : ℕ) → suc count ≤ room / size → 0 < room
    has_room zero size count k = absurd (omega (arith, div-mul-le_self 0 size))
    has_room (suc room) size count k = omega arith

-- When one element more than are asked for would fit behind the padding, `allocate` does not throw.
pub allocate-returns :
    (size align count : ℕ) (s : Allocator)
    → 0 < size
    → s.begin + padding align s.begin + suc count * size ≤ s.end
    → allocate size align count s
      ≡ some (
        s.begin + padding align s.begin,
        record s { begin = s.begin + (padding align s.begin + count * size) },
      )
unfolding allocate
allocate-returns size align count s positive room =
    let left = s.end - s.begin - padding align s.begin in
    let enough : suc count ≤ left / size = (le-div_iff_mul-le positive).1 (omega arith) in
    let e : leb (left / size) count ≡ false = ground arith in rw (e, allocate)
