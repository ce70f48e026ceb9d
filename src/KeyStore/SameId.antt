-- ===== src/KeyStore/SameId.antt =====
-- The comparison of ids in src/key_store/functions.c.
use Prim.Native.Nat.{Ordering}
use hermes_core.Prelude.{
  ◌≡◌, ◌↔◌, refl, true, Option, none, some, [], ◌∷◌, length, arith, ◌==◌, beq_iff, beq_refl,
  and_true,
}
use hermes_core.Common.Bytes.{Bytes}
use hermes_core.Common.Memory.{memcmp}
use hermes_core.KeyStore.{same_id, is_eq}

memcmp_eq : (a b : Bytes) → length a ≡ length b → memcmp (length a) a b ≡ some Ordering.eq → a ≡ b
unfolding memcmp
memcmp_eq [] [] same h = refl
memcmp_eq [] (y ∷ b) same h = absurd (omega arith)
memcmp_eq (x ∷ a) [] same h = absurd (omega arith)
memcmp_eq (x ∷ a) (y ∷ b) same h = ground (arith, memcmp_eq a b)

memcmp_refl : (a : Bytes) → memcmp (length a) a a ≡ some Ordering.eq
unfolding memcmp
memcmp_refl [] = refl
memcmp_refl (x ∷ a) = ground (arith, memcmp_refl a)

is_eq-some : (o : Option Ordering) → is_eq o ≡ true → o ≡ some Ordering.eq
is_eq-some none h = absurd (ground arith)
is_eq-some (some Ordering.eq) h = refl
is_eq-some (some Ordering.lt) h = absurd (ground arith)
is_eq-some (some Ordering.gt) h = absurd (ground arith)

same_id_refl : (a : Bytes) → same_id a a ≡ true
unfolding same_id
same_id_refl a = rw (beq_refl (length a), memcmp_refl a) refl

-- The comparison of ids is equality.
pub same_id_iff : (user owner : Bytes) → (same_id user owner ≡ true) ↔ (user ≡ owner)
unfolding same_id
same_id_iff user owner = (
  (λ h.
      let (long, e) =
        and_true (length user == length owner) (is_eq (memcmp (length user) user owner)) h in
      memcmp_eq user owner ((beq_iff (length user) (length owner)).0 long) (is_eq-some _ e)),
  λ e. rw e (same_id_refl owner),
)
