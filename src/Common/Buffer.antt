-- ===== src/Common/Buffer.antt =====
-- src/common/buffer.c: a buffer of typed values that is written at its end and read from a position.
-- `bytes` has the `length_` bytes in use. Memory blocks are numbered, so that a read position that
-- points into a block which realloc has given up can be told: `moves` says whether realloc moves the
-- block, and `past` whether a position in a block that was given up compares at or behind the end of
-- the buffer, which C leaves open. A NULL buffer and NULL results are not modelled. `none` is a read of
-- memory that is not the buffer's contents.
pub mod Laws
use hermes_core.Prelude.{
  ℕ, zero, suc, ◌+◌, ◌-◌, ◌*◌, ◌/◌, ◌%◌, ◌^◌, Bool, true, false, not, ◌||◌, Option, none, some,
  List, [], ◌∷◌, ◌++◌, length, take, drop, if◌then◌else◌, ltb, ◌==◌,
}
use hermes_core.Common.Bytes.{Bytes, u32_mod, put_u32, get_u32, is_given, contents}
use hermes_core.Common.Status.{Status, hm_success, hm_invalid_parameter, hm_bad_alloc}

-- The negative codes of include/hermes/common/buffer.h, as 32-bit ints.
abbrev pub buffer_at_end : Status
buffer_at_end = u32_mod - 4

abbrev pub buffer_incorrect_block_type : Status
buffer_incorrect_block_type = u32_mod - 5

abbrev pub buffer_corrupted : Status
buffer_corrupted = u32_mod - 6

abbrev pub buffer_write_read_only : Status
buffer_write_read_only = u32_mod - 7

abbrev pub node_type_bin : ℕ
node_type_bin = 2

abbrev pub node_type_int : ℕ
node_type_int = 3

abbrev pub block_capacity : ℕ
block_capacity = 10240

pub record Buffer : Type 0 where
  pub capacity : ℕ
  pub bytes : Bytes
  pub block : ℕ
  pub curr_block : ℕ
  pub curr : ℕ
  pub read_only : Bool

unfoldable pub realloc : (moves : Bool) → Buffer → ℕ → Status × Buffer
realloc moves b size =
    let needed = size / block_capacity + (if size % block_capacity == 0 then 0 else 1) in
    if b.read_only
    then (buffer_write_read_only, b)
    else if ltb (b.capacity * block_capacity % 2 ^ 64) size
    then (
      hm_success,
      record b { capacity = needed; block = if moves then suc b.block else b.block },
    )
    else (hm_success, b)

unfoldable pub buffer_create : Buffer
buffer_create = record {
  capacity = 1;
  bytes = [];
  block = 0;
  curr_block = 0;
  curr = 0;
  read_only = false;
}

-- The bytes are copied, and the position is set behind the growth.
unfoldable pub create_with_data : (moves : Bool) → Bytes → Buffer
create_with_data moves input =
    let b = (realloc moves buffer_create (length input)).1 in
    record b { bytes = input; curr_block = b.block; curr = 0 }

unfoldable pub init_with_data : Buffer → Option Bytes → Status × Buffer
init_with_data b bytes = if not (is_given bytes) then (hm_invalid_parameter, b) else (
  hm_success,
  record b {
    capacity = 1;
    bytes = contents bytes;
    curr_block = b.block;
    curr = 0;
    read_only = true;
  },
)

-- The value is put behind what is there, if the block could be made large enough.
abbrev pub put_node : Bytes → Status × Buffer → Buffer → Status × Buffer
put_node node (status, b) old =
    if not (status == hm_success)
    then (hm_bad_alloc, b)
    else if b.read_only
    then (buffer_write_read_only, b)
    else (hm_success, record b { bytes = b.bytes ++ node })

unfoldable pub push_status : (moves : Bool) → Buffer → ℕ → Status × Buffer
push_status moves b status =
    put_node (node_type_int ∷ put_u32 status) (realloc moves b ((length b.bytes + 5) % 2 ^ 64)) b

unfoldable pub push_data : (moves : Bool) → Buffer → Option Bytes → Status × Buffer
push_data moves b bytes =
    if not (is_given bytes)
    then (hm_bad_alloc, b)
    else put_node (node_type_bin ∷ put_u32 (length (contents bytes)) ++ contents bytes)
        (realloc moves b ((length b.bytes + length (contents bytes) + 5) % 2 ^ 64)) b

-- The byte at the position, and those behind it.
abbrev pub at_curr : Buffer → Bytes
at_curr b = drop b.curr b.bytes

abbrev pub forward : Buffer → ℕ → Buffer
forward b n = record b { curr = b.curr + n }

-- A position in another block than the buffer's is a pointer to memory that was freed.
abbrev pub is_dangling : Buffer → Bool
is_dangling b = not (b.curr_block == b.block)

abbrev pub popped_status : Buffer → Bytes → Option (Status × ℕ × Buffer)
popped_status b [] = some (buffer_at_end, 0, b)
popped_status b (type ∷ r) =
    if not (type == node_type_int)
    then some (buffer_incorrect_block_type, 0, b)
    else elim (get_u32 r) [
      | none ↦ some (buffer_corrupted, 0, b)
      | some (v, _) ↦ some (hm_success, v, forward b 5)
    ]

-- The position is compared with the end before it is read.
unfoldable pub pop_status : (past : Bool) → Buffer → Option (Status × ℕ × Buffer)
pop_status past b =
    if is_dangling b
    then (if past then some (buffer_at_end, 0, b) else none)
    else popped_status b (at_curr b)

-- The length is read before it is known to be there, and the test of the type is the wrong way round.
abbrev pub popped_data : Buffer → Bytes → Option (Status × Bytes × Buffer)
popped_data b [] = some (buffer_at_end, [], b)
popped_data b (type ∷ r) =
    if type == node_type_bin then some (buffer_incorrect_block_type, [], b) else elim (get_u32 r) [
      | none ↦ none
      | some (len, r') ↦
          if ltb (length r') len
          then some (buffer_corrupted, [], b)
          else some (hm_success, take len r', forward b (5 + len))
    ]

unfoldable pub pop_data : (past : Bool) → Buffer → Option (Status × Bytes × Buffer)
pop_data past b =
    if is_dangling b
    then (if past then some (buffer_at_end, [], b) else none)
    else popped_data b (at_curr b)
