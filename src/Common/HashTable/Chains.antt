-- ===== src/Common/HashTable/Chains.antt =====
-- The two loops over a chain of the table of src/common/hm_hash_table.c, against a chain's values by key.
-- The keys of a chain are C strings of one length in increasing order.
use Prim.Native.Nat.{Ordering}
use hermes_core.Prelude.{
  ℕ, length, ap, ◌≡◌, refl, ◌≢◌, ◌⊎◌, inl, inr, Option, none, some, [], ◌∷◌, arith, ◌∙◌,
}
use hermes_core.Common.Bytes.{Bytes}
use hermes_core.Common.Memory.{
  IsText, order, memcmp-order, order_eq, order_refl, order_trans, order_flip_back,
}
use hermes_core.Common.HashTable.{
  Chain, Found, found, absent, Inserted, inserted, exists, get_chain, set_chain,
}

-- The value under a key, wherever in the chain it stands.
unfoldable pub lookup : {V : Type 0} → Bytes → Chain V → Option V
lookup key [] = none
lookup key (e ∷ c) = elim (order key e.0) [ Ordering.eq ↦ some e.1 | _ ↦ lookup key c ]

unfoldable pub insert : {V : Type 0} → Bytes → V → Chain V → Chain V
insert key v [] = (key, v) ∷ []
insert key v (e ∷ c) = elim (order key e.0) [
  | Ordering.gt ↦ e ∷ insert key v c
  | Ordering.eq ↦ (key, v) ∷ c
  | Ordering.lt ↦ (key, v) ∷ e ∷ c
]

-- The keys are C strings of one length, which counts the terminator.
abbrev pub AreKeys : {V : Type 0} → ℕ → Chain V → Type 0
AreKeys n [] = Unit
AreKeys n (e ∷ c) = IsText e.0 × (length e.0 ≡ n) × AreKeys n c

abbrev pub AreAbove : {V : Type 0} → Bytes → Chain V → Type 0
AreAbove key [] = Unit
AreAbove key (e ∷ c) = (order key e.0 ≡ Ordering.lt) × AreAbove key c

abbrev pub IsSorted : {V : Type 0} → Chain V → Type 0
IsSorted [] = Unit
IsSorted (e ∷ c) = AreAbove e.0 c × IsSorted c

-- The keys of a chain are C strings of one length, in increasing order.
abbrev pub IsChain : {V : Type 0} → Chain V → Type 0
IsChain c = ((n : ℕ) × AreKeys n c) × IsSorted c

abbrev pub of_lookup : {V : Type 0} → Option V → Found V
of_lookup none = absent
of_lookup (some v) = found v

abbrev pub of_insert : {V : Type 0} → Option V → Chain V → Inserted V
of_insert none c = inserted c
of_insert (some v) c = exists

Ordering-cases : (o : Ordering) → (o ≡ Ordering.gt) ⊎ ((o ≡ Ordering.eq) ⊎ (o ≡ Ordering.lt))
Ordering-cases Ordering.gt = inl refl
Ordering-cases Ordering.eq = inr (inl refl)
Ordering-cases Ordering.lt = inr (inr refl)

module _ {V : Type 0} (key : Bytes) where
  AreAbove-trans :
      (other : Bytes) (c : Chain V)
      → order key other ≡ Ordering.lt
      → AreAbove other c
      → AreAbove key c
  AreAbove-trans other [] h above = tt
  AreAbove-trans other (e ∷ c) h above =
      (order_trans key other e.0 h above.0, AreAbove-trans other c h above.1)

  lookup_above : (c : Chain V) → AreAbove key c → lookup key c ≡ none
  unfolding lookup
  lookup_above [] above = refl
  lookup_above (e ∷ c) above = ground (arith, above.0, lookup_above c above.1)

  pub get_chain-lookup :
      (c : Chain V)
      → AreKeys (length key) c
      → IsSorted c
      → get_chain key c ≡ of_lookup (lookup key c)
  unfolding get_chain lookup
  get_chain-lookup [] keys sorted = refl
  get_chain-lookup (e ∷ c) keys sorted =
      let below : order key e.0 ≡ Ordering.lt → lookup key c ≡ none =
        λ h. lookup_above c (AreAbove-trans e.0 c h sorted.0) in
      ground (arith, memcmp-order key e.0 keys.1, get_chain-lookup c keys.2 sorted.1, below)

  -- A key is refused exactly if it is there.
  pub set_chain-insert :
      (v : V) (c : Chain V)
      → AreKeys (length key) c
      → IsSorted c
      → set_chain key v c ≡ of_insert (lookup key c) (insert key v c)
  unfolding set_chain lookup insert
  set_chain-insert v [] keys sorted = refl
  set_chain-insert v (e ∷ c) keys sorted =
      let below : order key e.0 ≡ Ordering.lt → lookup key c ≡ none =
        λ h. lookup_above c (AreAbove-trans e.0 c h sorted.0) in
      ground (arith, memcmp-order key e.0 keys.1, set_chain-insert v c keys.2 sorted.1, below)

  pub AreKeys-insert :
      (n : ℕ) (v : V) (c : Chain V)
      → IsText key
      → length key ≡ n
      → AreKeys n c
      → AreKeys n (insert key v c)
  unfolding insert
  AreKeys-insert n v [] text long keys = (text, long, tt)
  AreKeys-insert n v (e ∷ c) text long keys = elim (Ordering-cases (order key e.0)) [
    | inl h ↦ rw (h, insert) (keys.0, keys.1, AreKeys-insert n v c text long keys.2)
    | inr (inl h) ↦ rw (h, insert) (text, long, keys.2)
    | inr (inr h) ↦ rw (h, insert) (text, long, keys)
  ]

  AreAbove-insert :
      (low : Bytes) (v : V) (c : Chain V)
      → order low key ≡ Ordering.lt
      → AreAbove low c
      → AreAbove low (insert key v c)
  unfolding insert
  AreAbove-insert low v [] h above = (h, tt)
  AreAbove-insert low v (e ∷ c) h above = elim (Ordering-cases (order key e.0)) [
    | inl o ↦ rw (o, insert) (above.0, AreAbove-insert low v c h above.1)
    | inr (inl o) ↦ rw (o, insert) (h, above.1)
    | inr (inr o) ↦ rw (o, insert) (h, above)
  ]

  pub IsSorted-insert : (v : V) (c : Chain V) → IsSorted c → IsSorted (insert key v c)
  unfolding insert
  IsSorted-insert v [] sorted = (tt, tt)
  IsSorted-insert v (e ∷ c) sorted = elim (Ordering-cases (order key e.0)) [
    | inl o ↦
        rw (o, insert)
          (
            AreAbove-insert e.0 v c (order_flip_back key e.0 o) sorted.0,
            IsSorted-insert v c sorted.1,
          )
    | inr (inl o) ↦ rw (o, insert) (rw (order_eq key e.0 o) sorted)
    | inr (inr o) ↦ rw (o, insert) ((o, AreAbove-trans e.0 c o sorted.0), sorted)
  ]

  pub lookup-insert_self : (v : V) (c : Chain V) → lookup key (insert key v c) ≡ some v
  unfolding lookup insert
  lookup-insert_self v [] = ground (arith, order_refl key)
  lookup-insert_self v (e ∷ c) = ground (arith, order_refl key, lookup-insert_self v c)

  pub lookup-insert_ne :
      (j : Bytes) (v : V) (c : Chain V) → j ≢ key → lookup j (insert key v c) ≡ lookup j c
  unfolding lookup insert
  lookup-insert_ne j v [] ne = ground (arith, order_eq j key)
  lookup-insert_ne j v (e ∷ c) ne =
      ground (arith, order_eq j key, order_eq key e.0, lookup-insert_ne j v c ne)

  -- A key that is there has the length of the chain's keys.
  pub lookup-AreKeys :
      (n : ℕ) (v : V) (c : Chain V) → AreKeys n c → lookup key c ≡ some v → length key ≡ n
  unfolding lookup
  lookup-AreKeys n v [] keys h = absurd (ground (arith, h))
  lookup-AreKeys n v (e ∷ c) keys h = elim (Ordering-cases (order key e.0)) [
    | inl o ↦ lookup-AreKeys n v c keys.2 (rw (o, lookup) at h)
    | inr (inl o) ↦ ap (λ k. length k) (order_eq key e.0 o) ∙ keys.1
    | inr (inr o) ↦ lookup-AreKeys n v c keys.2 (rw (o, lookup) at h)
  ]
