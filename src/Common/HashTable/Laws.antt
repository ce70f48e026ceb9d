-- ===== src/Common/HashTable/Laws.antt =====
-- The table of src/common/hm_hash_table.c is a finite map that is written once for each key, as long
-- as its keys are C strings with their terminator, and those with the same hash have one length. (The
-- comparisons run over the length of the key that is looked for, and so leave the memory of a shorter
-- key with the same hash.)
use Prim.Native.Nat.{Ordering}
use hermes_core.Prelude.{
  ℕ, length, ◌<◌, ◌≡◌, refl, ◌≢◌, ◌⊎◌, inl, inr, Bool, true, false, Option, none, some, [], ◌∷◌,
  arith, if◌then◌else◌, ◌==◌, Bool-cases, Option-cases, beq_iff, beq_refl, ◌∙◌,
}
use hermes_core.Common.Bytes.{Bytes, is_given}
use hermes_core.Common.Memory.{IsText, order, order_eq, order_refl}
use hermes_core.Common.Status.{Status, hm_success, hm_fail}
use hermes_core.Common.HashTable.Chains.{
  lookup, insert, AreKeys, IsChain, of_lookup, of_insert, get_chain-lookup, set_chain-insert,
  AreKeys-insert, IsSorted-insert, lookup-insert_self, lookup-insert_ne, lookup-AreKeys,
}
use hermes_core.Common.HashTable.{
  Chain, Table, hash, create, set, get, table_cap, replace, fetched, stored,
}

hash-lt : (key : Bytes) → hash key < table_cap
unfolding hash
hash-lt key = omega arith

-- What a table stands for: the values stored, by key.
pub view : {V : Type 0} → Table V → Bytes → Option V
view t key = lookup key (t (hash key))

-- Every key of the table is a C string, those with the same hash have one length, and each chain is
-- sorted.
abbrev pub IsTable : {V : Type 0} → Table V → Type 0
IsTable t = (i : ℕ) → IsChain (t i)

-- The keys of the table with the hash of this one have its length.
pub IsComparable : {V : Type 0} → Table V → Bytes → Type 0
IsComparable t key = AreKeys (length key) (t (hash key))

-- The answer of `hm_hash_table_get`: its status and, where there is one, the value.
abbrev pub answer : {V : Type 0} → Option V → Status × Option V
answer none = (hm_fail, none)
answer (some v) = (hm_success, some v)

pub is_given_text : (key : Bytes) → IsText key → is_given (some key) ≡ true
is_given_text [] text = absurd text
is_given_text (x ∷ key) text = refl

fetched-answer : {V : Type 0} (o : Option V) → fetched (of_lookup o) ≡ some (answer o)
fetched-answer none = refl
fetched-answer (some v) = refl

abbrev pub same_key : Bytes → Bytes → Bool
same_key a b = elim (order a b) [ Ordering.eq ↦ true | _ ↦ false ]

-- The map `m` with `v` at `key`.
abbrev pub update : {V : Type 0} → (Bytes → Option V) → Bytes → V → Bytes → Option V
update m key v j = if same_key j key then some v else m j

same_key_ne : (j key : Bytes) → same_key j key ≡ false → j ≢ key
same_key_ne j key h e = ground (arith, order_refl key)

same_key_eq : (j key : Bytes) → same_key j key ≡ true → j ≡ key
same_key_eq j key h = order_eq j key (ground arith)

update-cases :
    {V : Type 0} (m m' : Bytes → Option V) (key : Bytes) (v : V) (j : Bytes)
    → m' key ≡ some v
    → (j ≢ key → m' j ≡ m j)
    → m' j ≡ update m key v j
update-cases m m' key v j here kept = elim (Bool-cases (same_key j key)) [
  | inl e ↦ rw (e, same_key_eq j key e) here
  | inr e ↦ rw e (kept (same_key_ne j key e))
]

pub create-IsComparable : (V : Type 0) (key : Bytes) → IsComparable {V = V} create key
unfolding create IsComparable
create-IsComparable V key = tt

module _ {V : Type 0} where
  -- A new table is empty.
  pub create-view : (key : Bytes) → IsTable {V = V} create × (view {V = V} create key ≡ none)
  unfolding create view lookup
  create-view key = (λ i. ((0, tt), tt), refl)

  -- A key that is there has the length of those with its hash.
  pub view-IsComparable :
      (t : Table V) (key : Bytes) (v : V) → IsTable t → view t key ≡ some v → IsComparable t key
  unfolding view IsComparable
  view-IsComparable t key v valid h =
      let ((n, keys), sorted) = valid (hash key) in
      rw (lookup-AreKeys key n v (t (hash key)) keys h) keys

  -- `hm_hash_table_get` for a C string answers the value stored under that very key, wherever in its
  -- chain it stands, or HM_FAIL where there is none, and does not leave the keys' memory. The table's
  -- keys are C strings, those with the hash of the one that is looked for have its length, and each
  -- chain is sorted.
  pub get-view :
      (t : Table V) (key : Bytes)
      → IsTable t
      → IsText key
      → IsComparable t key
      → get t (some key) ≡ some (answer (view t key))
  unfolding get view IsComparable
  get-view t key valid text keys =
      rw (is_given_text key text, get_chain-lookup key (t (hash key)) keys ((valid (hash key)).1))
        (fetched-answer (lookup key (t (hash key))))

  replace-IsTable :
      (t : Table V) (h : ℕ) (c : Chain V) → IsTable t → IsChain c → IsTable (replace t h c)
  replace-IsTable t h c valid new i = elim (Bool-cases (i == h)) [
    | inl e ↦ rw e new
    | inr e ↦ rw e (valid i)
  ]

  lookup-replace :
      (t : Table V) (key j : Bytes) (v : V)
      → j ≢ key
      → lookup j (replace t (hash key) (insert key v (t (hash key))) (hash j))
        ≡ lookup j (t (hash j))
  lookup-replace t key j v ne = elim (Bool-cases (hash j == hash key)) [
    | inl e ↦ rw (e, (beq_iff (hash j) (hash key)).0 e) (lookup-insert_ne key j v (t (hash key)) ne)
    | inr e ↦ rw e
  ]

  replace-IsComparable :
      (t : Table V) (key j : Bytes) (v : V)
      → IsText key
      → (hash j ≡ hash key → length key ≡ length j)
      → IsComparable t j
      → IsComparable (replace t (hash key) (insert key v (t (hash key)))) j
  unfolding IsComparable
  replace-IsComparable t key j v text same keys = elim (Bool-cases (hash j == hash key)) [
    | inl e ↦
        let h = (beq_iff (hash j) (hash key)).0 e in
        rw e (AreKeys-insert key (length j) v (t (hash key)) text (same h) (rw h at keys))
    | inr e ↦ rw e keys
  ]

  -- By key: refused and unchanged, or stored with every other key left alone.
  pub set-cases :
      (t : Table V) (key : Bytes) (v : V) (val_length : ℕ)
      → IsTable t
      → IsText key
      → IsComparable t key
      → 0 < val_length
      → ((old : V) × (view t key ≡ some old)
          × (set t (some key) (some v) val_length ≡ some (hm_fail, t)))
        ⊎ ((t' : Table V) × (view t key ≡ none)
            × (set t (some key) (some v) val_length ≡ some (hm_success, t'))
            × IsTable t'
            × (view t' key ≡ some v)
            × ((j : Bytes) → j ≢ key → view t' j ≡ view t j)
            × ((j : Bytes)
                → (hash j ≡ hash key → length key ≡ length j)
                → IsComparable t j
                → IsComparable t' j))
  unfolding set view
  set-cases t key v val_length valid text keys long =
      let chain = t (hash key) in
      let sorted = (valid (hash key)).1 in
      let fit : AreKeys (length key) chain = unfold IsComparable in keys in
      let run : set t (some key) (some v) val_length
          ≡ stored t (hash key) (of_insert (lookup key chain) (insert key v chain)) =
        rw (is_given_text key text, set_chain-insert key v chain fit sorted) (ground arith) in
      elim (Option-cases (lookup key chain)) [
        | inr (old, e) ↦ inl (old, e, run ∙ rw e)
        | inl e ↦ inr (
          replace t (hash key) (insert key v chain),
          e,
          run ∙ rw e,
          replace-IsTable t (hash key) _ valid (
            (length key, AreKeys-insert key (length key) v chain text refl fit),
            IsSorted-insert key v chain sorted,
          ),
          rw (beq_refl (hash key)) (lookup-insert_self key v chain),
          (λ j ne. lookup-replace t key j v ne),
          λ j same fits. replace-IsComparable t key j v text same fits,
        )
      ]

  -- `hm_hash_table_set` of a C string, with a value of some length, in a table of C strings: if the key
  -- is there it answers HM_FAIL and changes nothing; if not it answers HM_SUCCESS, and the table is
  -- the one before with the value under that key. The keys with the key's hash have its length, each
  -- chain is sorted and has keys of one length, and so it stays.
  pub set-view :
      (t : Table V) (key : Bytes) (v : V) (val_length : ℕ)
      → IsTable t
      → IsText key
      → IsComparable t key
      → 0 < val_length
      → ((old : V) × (view t key ≡ some old)
          × (set t (some key) (some v) val_length ≡ some (hm_fail, t)))
        ⊎ ((t' : Table V) × (view t key ≡ none)
            × (set t (some key) (some v) val_length ≡ some (hm_success, t'))
            × IsTable t'
            × ((j : Bytes) → view t' j ≡ update (view t) key v j))
  set-view t key v val_length valid text keys long =
      elim (set-cases t key v val_length valid text keys long) [
        | inl refused ↦ inl refused
        | inr (t', gone, run, valid', here, kept, fits) ↦
            inr (t', gone, run, valid', λ j. update-cases (view t) (view t') key v j here (kept j))
      ]
