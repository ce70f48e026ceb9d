-- ===== src/Common/HashTable.antt =====
-- src/common/hm_hash_table.c: 1024 chains of entries. Keys and values are
-- copied into the entries. The value type is a parameter: the server stores function pointers.
-- A NULL table is not modelled. `val_length` of a value is given with it, as in the code.
pub mod Chains
pub mod Laws
use Prim.Native.Nat.{Ordering}
use hermes_core.Prelude.{
  ℕ, zero, suc, ◌+◌, ◌*◌, ◌%◌, ◌^◌, Bool, true, false, not, ◌||◌, Option, none, some, List, [], ◌∷◌,
  length, if◌then◌else◌, ◌==◌,
}
use hermes_core.Common.Bytes.{Bytes, is_given, contents}
use hermes_core.Common.Status.{Status, hm_success, hm_fail, hm_invalid_parameter}
use hermes_core.Common.Memory.{memcmp}

abbrev pub table_cap : ℕ
table_cap = 1024

-- djb2, in an unsigned long.
unfoldable pub hash_loop : ℕ → Bytes → ℕ
hash_loop hash [] = hash
hash_loop hash (c ∷ key) = hash_loop (((hash * 2 ^ 5) % 2 ^ 64 + hash + c) % 2 ^ 64) key

unfoldable pub hash : Bytes → ℕ
unfolding hash_loop
hash key = hash_loop 5381 key % table_cap

abbrev pub Chain : Type 0 → Type 0
Chain V = List (Bytes × V)

pub data Found (V : Type 0) : Type 0 where
  found : V → Found V
  absent : Found V
  overread : Found V

pub data Inserted (V : Type 0) : Type 0 where
  inserted : Chain V → Inserted V
  exists : Inserted V
  overread : Inserted V

-- `t[hash]`.
abbrev pub Table : Type 0 → Type 0
Table V = ℕ → Chain V

module _ {V : Type 0} where
  -- The loop of `hm_hash_table_get`, and the comparison behind it.
  unfoldable pub get_chain : Bytes → Chain V → Found V
  get_chain key [] = absent
  get_chain key (e ∷ c) = elim (memcmp (length key) key e.0) [
    | none ↦ Found.overread
    | some Ordering.gt ↦ get_chain key c
    | some Ordering.eq ↦ found e.1
    | some Ordering.lt ↦ absent
  ]

  abbrev pub behind : Bytes × V → Inserted V → Inserted V
  behind e (inserted c) = inserted (e ∷ c)
  behind e exists = exists
  behind e Inserted.overread = Inserted.overread

  -- The loop of `hm_hash_table_set`, and the new entry linked between `last` and `next`.
  unfoldable pub set_chain : Bytes → V → Chain V → Inserted V
  set_chain key val [] = inserted ((key, val) ∷ [])
  set_chain key val (e ∷ c) = elim (memcmp (length key) key e.0) [
    | none ↦ Inserted.overread
    | some Ordering.gt ↦ behind e (set_chain key val c)
    | some Ordering.eq ↦ exists
    | some Ordering.lt ↦ inserted ((key, val) ∷ e ∷ c)
  ]

  abbrev pub replace : Table V → ℕ → Chain V → Table V
  replace t h c i = if i == h then c else t i

  abbrev pub stored : Table V → ℕ → Inserted V → Option (Status × Table V)
  stored t h (inserted c) = some (hm_success, replace t h c)
  stored t h exists = some (hm_fail, t)
  stored t h Inserted.overread = none

  abbrev pub fetched : Found V → Option (Status × Option V)
  fetched (found v) = some (hm_success, some v)
  fetched absent = some (hm_fail, none)
  fetched Found.overread = none

  unfoldable pub create : Table V
  create i = []

  -- `none` is undefined behaviour.
  unfoldable pub set : Table V → Option Bytes → Option V → ℕ → Option (Status × Table V)
  set t key none val_length = some (hm_invalid_parameter, t)
  set t key (some v) val_length =
      if not (is_given key) || (val_length == 0)
      then some (hm_invalid_parameter, t)
      else stored t (hash (contents key)) (set_chain (contents key) v (t (hash (contents key))))

  unfoldable pub get : Table V → Option Bytes → Option (Status × Option V)
  get t key =
      if not (is_given key)
      then some (hm_invalid_parameter, none)
      else fetched (get_chain (contents key) (t (hash (contents key))))
