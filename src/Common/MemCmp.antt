-- ===== src/Common/MemCmp.antt =====
-- src/common/mem_cmp.c: the comparison whose time does not depend on the contents. An `int` is its 32
-- bits in two's complement, as a natural number.
pub mod Laws
use hermes_core.Prelude.{
  ℕ, zero, suc, ◌+◌, ◌-◌, ◌*◌, ◌/◌, ◌%◌, ◌^◌, Bool, Option, none, some, List, [], ◌∷◌,
  if◌then◌else◌, ltb, ◌==◌, ◌&&◌,
}
use hermes_core.Common.Bytes.{Bytes, u32_mod}

-- The operators & and | on numbers of `w` bits.
unfoldable pub bit_and : ℕ → ℕ → ℕ → ℕ
bit_and zero x y = 0
bit_and (suc w) x y = x % 2 * (y % 2) + 2 * bit_and w (x / 2) (y / 2)

unfoldable pub bit_or : ℕ → ℕ → ℕ → ℕ
bit_or zero x y = 0
bit_or (suc w) x y = (x % 2 + y % 2 - x % 2 * (y % 2)) + 2 * bit_or w (x / 2) (y / 2)

-- `-!diff`.
abbrev pub mask : ℕ → ℕ
mask diff = if diff == 0 then u32_mod - 1 else 0

-- One turn of the loop, on the bytes `x` and `y`.
unfoldable pub turn : ℕ → ℕ → ℕ → ℕ
turn x y res = let diff = (x + u32_mod - y) % u32_mod in bit_or 32 (bit_and 32 res (mask diff)) diff

abbrev pub turn_on : ℕ → ℕ → Option ℕ → Option ℕ
turn_on x y none = none
turn_on x y (some res) = some (turn x y res)

-- The loop runs from the last byte to the first; `none` is a read past the end of a buffer.
unfoldable pub compare_loop : ℕ → Bytes → Bytes → Option ℕ
compare_loop zero a b = some 0
compare_loop (suc n) (x ∷ a) (y ∷ b) = turn_on x y (compare_loop n a b)
compare_loop (suc n) a b = none

-- `(res > 0) - (res < 0)`.
abbrev pub sign : ℕ → ℕ
sign res =
    let positive = if ltb 0 res && ltb res (2 ^ 31) then 1 else 0 in
    let negative = if ltb res (2 ^ 31) then 0 else 1 in (positive + u32_mod - negative) % u32_mod

abbrev pub sign_of : Option ℕ → Option ℕ
sign_of none = none
sign_of (some res) = some (sign res)

unfoldable pub cst_time_memcmp : Bytes → Bytes → ℕ → Option ℕ
cst_time_memcmp m1 m2 n = sign_of (compare_loop n m1 m2)
