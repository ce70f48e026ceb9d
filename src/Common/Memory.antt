-- ===== src/Common/Memory.antt =====
-- The C library's `memcmp`, as src/common/hm_hash_table.c and the stores rely on it.
use hermes_core.Prelude.{ℕ, zero, suc, ◌<◌, ◌≡◌, refl, Option, none, some, [], ◌∷◌, arith, length}
use Prim.Native.Char.{code}
use Prim.Native.String.{String}
use Prim.Native.Nat.{compare, Ordering}
use hermes_core.Common.Bytes.{Bytes}

-- The first byte that differs decides.
abbrev pub decided : Ordering → Ordering → Ordering
decided Ordering.eq rest = rest
decided Ordering.lt rest = Ordering.lt
decided Ordering.gt rest = Ordering.gt

-- The sign of `memcmp(a, b, n)`. `none` is undefined behaviour: one of the two buffers has fewer than
-- `n` bytes, whether or not a byte before its end differs.
unfoldable pub memcmp : ℕ → Bytes → Bytes → Option Ordering
memcmp zero a b = some Ordering.eq
memcmp (suc n) [] b = none
memcmp (suc n) (x ∷ a) [] = none
memcmp (suc n) (x ∷ a) (y ∷ b) = elim (memcmp n a b) [
  | none ↦ none
  | some rest ↦ some (decided (compare x y) rest)
]

-- A C string with its terminator: `sizeof` of a string literal counts it.
abbrev pub text : String → Bytes
text String.[] = 0 ∷ []
text (String.◌∷◌ c s) = code c ∷ text s

-- The keys in use are C strings with their terminator.
abbrev pub IsText : Bytes → Type 0
IsText [] = ⊥
IsText (x ∷ []) = x ≡ 0
IsText (x ∷ y ∷ r) = (0 < x) × IsText (y ∷ r)

-- Three-way comparison of whole strings.
abbrev pub order : Bytes → Bytes → Ordering
order [] [] = Ordering.eq
order [] (y ∷ b) = Ordering.lt
order (x ∷ a) [] = Ordering.gt
order (x ∷ a) (y ∷ b) = elim (compare x y) [
  | Ordering.lt ↦ Ordering.lt
  | Ordering.gt ↦ Ordering.gt
  | Ordering.eq ↦ order a b
]

-- Over the whole of two strings of one length, `memcmp` orders them as wholes.
pub memcmp-order : (a b : Bytes) → length b ≡ length a → memcmp (length a) a b ≡ some (order a b)
unfolding memcmp
memcmp-order [] [] h = refl
memcmp-order [] (y ∷ b) h = absurd (omega arith)
memcmp-order (x ∷ a) [] h = absurd (omega arith)
memcmp-order (x ∷ a) (y ∷ b) h = ground (arith, memcmp-order a b)

pub order_eq : (a b : Bytes) → order a b ≡ Ordering.eq → a ≡ b
order_eq [] [] h = refl
order_eq [] (y ∷ b) h = absurd (ground arith)
order_eq (x ∷ a) [] h = absurd (ground arith)
order_eq (x ∷ a) (y ∷ b) h = ground (arith, order_eq a b)

pub order_refl : (a : Bytes) → order a a ≡ Ordering.eq
order_refl [] = refl
order_refl (x ∷ a) = ground (arith, order_refl a)

pub order_flip : (a b : Bytes) → order a b ≡ Ordering.lt → order b a ≡ Ordering.gt
order_flip [] [] h = absurd (ground arith)
order_flip [] (y ∷ b) h = refl
order_flip (x ∷ a) [] h = absurd (ground arith)
order_flip (x ∷ a) (y ∷ b) h = ground (arith, order_flip a b)

pub order_flip_back : (a b : Bytes) → order a b ≡ Ordering.gt → order b a ≡ Ordering.lt
order_flip_back [] [] h = absurd (ground arith)
order_flip_back [] (y ∷ b) h = absurd (ground arith)
order_flip_back (x ∷ a) [] h = refl
order_flip_back (x ∷ a) (y ∷ b) h = ground (arith, order_flip_back a b)

pub order_trans :
    (a b c : Bytes) → order a b ≡ Ordering.lt → order b c ≡ Ordering.lt → order a c ≡ Ordering.lt
order_trans [] (y ∷ b) (z ∷ c) h k = refl
order_trans [] [] c h k = absurd (ground arith)
order_trans [] (y ∷ b) [] h k = absurd (ground arith)
order_trans (x ∷ a) [] c h k = absurd (ground arith)
order_trans (x ∷ a) (y ∷ b) [] h k = absurd (ground arith)
order_trans (x ∷ a) (y ∷ b) (z ∷ c) h k = ground (arith, order_trans a b c)
