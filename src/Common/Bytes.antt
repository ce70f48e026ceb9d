-- ===== src/Common/Bytes.antt =====
-- Byte strings, and the little-endian uint32_t that the code copies into and out of them.
-- A pointer with a length is `Option Bytes`: `none` is NULL, and the length is the list's.
use hermes_core.Prelude.{
  ℕ, ◌+◌, ◌*◌, ◌/◌, ◌%◌, ◌^◌, ◌<◌, ◌∙◌, ◌≡◌, refl, Bool, false, not, Option, none, some, List, [],
  ◌∷◌, ◌++◌, arith, length, is_empty, ap, append-nil,
}

abbrev pub Bytes : Type 0
Bytes = List ℕ

abbrev pub u32_mod : ℕ
u32_mod = 2 ^ 32

-- memcpy of a uint32_t to memory.
unfoldable pub put_u32 : ℕ → Bytes
put_u32 n = n % 256 ∷ n / 256 % 256 ∷ n / 65536 % 256 ∷ n / 16777216 % 256 ∷ []

-- `*(uint32_t*)p` with the bytes behind it; `none` where fewer than four bytes are left.
unfoldable pub get_u32 : Bytes → Option (ℕ × Bytes)
get_u32 (a ∷ b ∷ c ∷ d ∷ r) = some (a + 256 * b + 65536 * c + 16777216 * d, r)
get_u32 _ = none

-- A `uint32_t n = 0` after its bytes have been received into it.
unfoldable pub value_u32 : Bytes → ℕ
value_u32 bs = elim (get_u32 bs) [ none ↦ 0 | some (n, _) ↦ n ]

-- `p && n`: the argument is not NULL and not empty.
abbrev pub is_given : Option Bytes → Bool
is_given none = false
is_given (some bs) = not (is_empty bs)

abbrev pub contents : Option Bytes → Bytes
contents none = []
contents (some bs) = bs

word :
    (n : ℕ)
    → n % 256 + 256 * (n / 256 % 256) + 65536 * (n / 65536 % 256) + 16777216 * (n / 16777216 % 256)
      ≡ n % u32_mod
word n = omega arith

pub length-put_u32 : (n : ℕ) → length (put_u32 n) ≡ 4
unfolding put_u32
length-put_u32 n = refl

pub get_u32-put_u32 :
    (n : ℕ) (rest : Bytes) → get_u32 (put_u32 n ++ rest) ≡ some (n % u32_mod, rest)
unfolding get_u32 put_u32
get_u32-put_u32 n rest = ap (λ (m : ℕ). some (m, rest)) (word n)

-- Below the modulus the number comes back unchanged.
pub get_u32_small :
    (n : ℕ) (rest : Bytes) → n < u32_mod → get_u32 (put_u32 n ++ rest) ≡ some (n, rest)
get_u32_small n rest h = get_u32-put_u32 n rest ∙ ap (λ (m : ℕ). some (m, rest)) (omega arith)

pub value_u32-put_u32 : (n : ℕ) (rest : Bytes) → n < u32_mod → value_u32 (put_u32 n ++ rest) ≡ n
unfolding value_u32
value_u32-put_u32 n rest h = rw (get_u32_small n rest h, value_u32)

pub value_u32_word : (n : ℕ) → n < u32_mod → value_u32 (put_u32 n) ≡ n
value_u32_word n h = rw append-nil at (value_u32-put_u32 n [] h)
