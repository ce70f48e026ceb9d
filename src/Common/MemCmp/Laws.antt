-- ===== src/Common/MemCmp/Laws.antt =====
-- The comparison of src/common/mem_cmp.c against the C library's `memcmp`.
use Prim.Native.Nat.{Ordering, compare}
use hermes_core.Prelude.{
  Option-cases, ℕ, zero, suc, ◌+◌, ◌-◌, ◌*◌, ◌/◌, ◌%◌, ◌≤◌, ◌<◌, ◌≡◌, ◌∙◌, refl, ap, true, false,
  Option, none, some, [], ◌∷◌, All, arith, length, inl, inr, Bool-cases, beq_iff, sym, ◌==◌,
}
use hermes_core.Common.Bytes.{Bytes, u32_mod}
use hermes_core.Common.Memory.{memcmp}
use hermes_core.Common.MemCmp.{bit_and, bit_or, turn, compare_loop, sign, cst_time_memcmp}

-- The number of `w` ones.
ones : ℕ → ℕ
ones zero = 0
ones (suc w) = 1 + 2 * ones w

bit_and-ones : (w x : ℕ) → x ≤ ones w → bit_and w x (ones w) ≡ x
unfolding bit_and ones
bit_and-ones zero x h = omega arith
bit_and-ones (suc w) x h =
    let odd : (1 + 2 * ones w) % 2 ≡ 1 = omega arith in
    let half : (1 + 2 * ones w) / 2 ≡ ones w = omega arith in
    rw (odd, half, bit_and-ones w (x / 2) (omega arith)) (omega arith)

bit_and-zero : (w x : ℕ) → bit_and w x 0 ≡ 0
unfolding bit_and
bit_and-zero zero x = refl
bit_and-zero (suc w) x = omega (arith, bit_and-zero w (x / 2))

bit_or-zero : (w x : ℕ) → x ≤ ones w → bit_or w x 0 ≡ x
unfolding bit_or ones
bit_or-zero zero x h = omega arith
bit_or-zero (suc w) x h = rw (bit_or-zero w (x / 2) (omega arith)) (omega arith)

bit_or_zero_left : (w x : ℕ) → x ≤ ones w → bit_or w 0 x ≡ x
unfolding bit_or ones
bit_or_zero_left zero x h = omega arith
bit_or_zero_left (suc w) x h = rw (bit_or_zero_left w (x / 2) (omega arith)) (omega arith)

ones_32 : ones 32 ≡ u32_mod - 1
unfolding ones
ones_32 = refl

-- The difference of two bytes as an int.
abbrev difference : ℕ → ℕ → ℕ
difference x y = (x + u32_mod - y) % u32_mod

word_le : (x : ℕ) → x < u32_mod → x ≤ ones 32
word_le x h = rw ones_32 (omega arith)

all_ones : (x : ℕ) → x < u32_mod → bit_and 32 x (u32_mod - 1) ≡ x
all_ones x h = rw ones_32 at (bit_and-ones 32 x (word_le x h))

-- A turn keeps the result where the bytes are the same, and takes their difference otherwise.
turn_same : (x res : ℕ) → res < u32_mod → turn x x res ≡ res
unfolding turn
turn_same x res h =
    let nothing : difference x x ≡ 0 = omega arith in
    rw (nothing, all_ones res h) (bit_or-zero 32 res (word_le res h))

turn_other : (x y res : ℕ) → x < 256 → y < 256 → (x == y) ≡ false → turn x y res ≡ difference x y
unfolding turn
turn_other x y res hx hy e =
    let some_bits : (difference x y == 0) ≡ false = ground arith in
    rw (some_bits, bit_and-zero 32 res)
      (bit_or_zero_left 32 (difference x y) (word_le (difference x y) (omega arith)))

-- The ints 1, 0 and -1.
abbrev pub int_of : Ordering → ℕ
int_of Ordering.gt = 1
int_of Ordering.eq = 0
int_of Ordering.lt = u32_mod - 1

abbrev pub int_of? : Option Ordering → Option ℕ
int_of? none = none
int_of? (some o) = some (int_of o)

sign-difference : (x y : ℕ) → x < 256 → y < 256 → sign (difference x y) ≡ int_of (compare x y)
sign-difference x y hx hy = ground arith

memcmp_other :
    (n x y : ℕ) (a b : Bytes)
    → (x == y) ≡ false
    → (o : Ordering) → memcmp n a b ≡ some o
    → int_of? (memcmp (suc n) (x ∷ a) (y ∷ b)) ≡ some (int_of (compare x y))
unfolding memcmp
memcmp_other n x y a b e o h = ground (arith, h)

memcmp_same :
    (n x y : ℕ) (a b : Bytes) → (x == y) ≡ true → memcmp (suc n) (x ∷ a) (y ∷ b) ≡ memcmp n a b
unfolding memcmp
memcmp_same n x y a b e = elim (Option-cases (memcmp n a b)) [
  | inl h ↦ ground (arith, h)
  | inr (o, h) ↦ ground (arith, h)
]

loop_step :
    (n x y : ℕ) (a b : Bytes) (res : ℕ)
    → compare_loop n a b ≡ some res
    → compare_loop (suc n) (x ∷ a) (y ∷ b) ≡ some (turn x y res)
unfolding compare_loop
loop_step n x y a b res run = rw run refl

defined :
    (m : Option Ordering) (v : ℕ)
    → int_of? m ≡ some v
    → (o : Ordering) × (m ≡ some o) × (v ≡ int_of o)
defined none v h = absurd (ground arith)
defined (some o) v h = (o, refl, ground arith)

-- The loop ends with a word whose sign is that of `memcmp`.
compare_loop-memcmp :
    (n : ℕ) (a b : Bytes)
    → n ≤ length a
    → n ≤ length b
    → All (λ x. x < 256) a
    → All (λ x. x < 256) b
    → (res : ℕ) × (compare_loop n a b ≡ some res)
      × (res < u32_mod)
      × (int_of? (memcmp n a b) ≡ some (sign res))
compare_loop-memcmp zero a b ha hb ba bb =
    (0, unfold compare_loop in refl, omega arith, unfold memcmp in refl)
compare_loop-memcmp (suc n) [] b ha hb ba bb = absurd (omega arith)
compare_loop-memcmp (suc n) (x ∷ a) [] ha hb ba bb = absurd (omega arith)
compare_loop-memcmp (suc n) (x ∷ a) (y ∷ b) ha hb (hx, ba) (hy, bb) =
    let (res, run, word, value) = compare_loop-memcmp n a b (omega arith) (omega arith) ba bb in
    let step = loop_step n x y a b res run in
    elim (Bool-cases (x == y)) [
      | inl e ↦
          let same : x ≡ y = (beq_iff x y).0 e in
          let keeps : turn x y res ≡ res =
            ap (λ (z : ℕ). turn x z res) (sym same) ∙ turn_same x res word in
          (
            res,
            step ∙ ap (λ (z : ℕ). some z) keeps,
            word,
            ap int_of? (memcmp_same n x y a b e) ∙ value,
          )
      | inr e ↦
          let (o, compared, signed) = defined (memcmp n a b) (sign res) value in
          (
            difference x y,
            step ∙ ap (λ (z : ℕ). some z) (turn_other x y res hx hy e),
            omega arith,
            memcmp_other n x y a b e o compared
                ∙ ap (λ (z : ℕ). some z) (sym (sign-difference x y hx hy)),
          )
    ]

-- On two buffers of bytes that both have at least `n`, `cst_time_memcmp` stays inside them and returns
-- 1, 0 or -1 as `memcmp` compares their first `n` bytes.
pub cst_time_memcmp-memcmp :
    (m1 m2 : Bytes) (n : ℕ)
    → n ≤ length m1
    → n ≤ length m2
    → All (λ x. x < 256) m1
    → All (λ x. x < 256) m2
    → (o : Ordering) × (memcmp n m1 m2 ≡ some o) × (cst_time_memcmp m1 m2 n ≡ some (int_of o))
unfolding cst_time_memcmp
cst_time_memcmp-memcmp m1 m2 n long1 long2 bytes1 bytes2 =
    let (res, run, word, value) = compare_loop-memcmp n m1 m2 long1 long2 bytes1 bytes2 in
    let (o, compared, signed) = defined (memcmp n m1 m2) (sign res) value in
    (o, compared, rw run (ap (λ (z : ℕ). some z) signed))
