-- ===== src/Rpc/BuffersList.antt =====
-- src/rpc/buffers_list.c. The nodes hang on one another and are owned by the list, so a list is the
-- sequence of its nodes' data, and `none` is a NULL list. `malloc` does not fail (the code asserts).
-- The loops run on fuel; `none` means that it ran out, or that a buffer was left.
pub mod Laws
pub mod Extract
use hermes_core.Prelude.{
  ℕ, ◌-◌, zero, suc, ◌+◌, ◌%◌, ◌^◌, Bool, true, false, Option, none, some, List, [], ◌∷◌, ◌++◌,
  length, take, drop, if◌then◌else◌, ltb, ◌==◌,
}
use hermes_core.Common.Bytes.{Bytes, put_u32, get_u32, is_given, contents}
use hermes_core.Common.Status.{Status, hm_success, hm_invalid_parameter}

abbrev pub Buffers : Type 0
Buffers = List Bytes

-- The walk of `get_last`, and the node put behind what it finds.
add_last : Buffers → Bytes → Buffers
add_last [] b = b ∷ []
add_last (x ∷ xs) b = x ∷ add_last xs b

-- `hm_buffers_list_add` takes the buffer over and `_add_c` copies it; the contents are the same.
unfoldable pub add : Option Buffers → Option Bytes → Status × Option Buffers
unfolding add_last
add none b = (hm_invalid_parameter, none)
add (some l) b =
    if is_given b
    then (hm_success, some (add_last l (contents b)))
    else (hm_invalid_parameter, some l)

-- One element at the front of the data: its length, its bytes and what follows.
unfoldable pub next_element : Bytes → Option (Bytes × Bytes)
next_element bs = elim (get_u32 bs) [
  | none ↦ none
  | some (len, r) ↦ if ltb (length r) len then none else some (take len r, drop len r)
]

extract_loop : ℕ → Bytes → Option Buffers → Option (Option Buffers)
extract_loop fuel [] l = some l
extract_loop zero (x ∷ xs) l = none
extract_loop (suc fuel) (x ∷ xs) l = elim (next_element (x ∷ xs)) [
  | none ↦ some none
  | some (e, r) ↦
      let rest = extract_loop fuel r (add l (some e)).1 in
      if (add l (some e)).0 == hm_success then rest else some none
]

unfoldable pub extract : Option Bytes → Option (Option Buffers)
unfolding extract_loop add next_element get_u32
extract bs =
    if is_given bs then extract_loop (length (contents bs)) (contents bs) (some []) else some none

-- `current` is not advanced in the loop's body.
needed_size_loop : ℕ → Buffers → ℕ → Option ℕ
needed_size_loop fuel [] result = some result
needed_size_loop zero (b ∷ l) result = none
needed_size_loop (suc fuel) (b ∷ l) result =
    needed_size_loop fuel (b ∷ l) ((result + 4 + length b) % 2 ^ 64)

unfoldable pub get_needed_buffer_size : ℕ → Option Buffers → Option ℕ
unfolding needed_size_loop
get_needed_buffer_size fuel none = some 0
get_needed_buffer_size fuel (some l) = needed_size_loop fuel l 0

-- Nor is it in the loop that copies, into a buffer of which `room` bytes are left: `none` is a loop that
-- has not ended, or that has left the buffer.
copy_loop : ℕ → (room : ℕ) → Buffers → Bytes → Option Bytes
copy_loop fuel room [] out = some out
copy_loop zero room (b ∷ l) out = none
copy_loop (suc fuel) room (b ∷ l) out =
    let rest = copy_loop fuel (room - (4 + length b)) (b ∷ l) (out ++ (put_u32 (length b) ++ b)) in
    if ltb room (4 + length b) then none else rest

-- The length that is returned, with the bytes that `*data` points to afterwards.
unfoldable pub to_buf : ℕ → Option Buffers → Option (ℕ × Bytes)
unfolding copy_loop get_needed_buffer_size
to_buf fuel none = some (0, [])
to_buf fuel (some l) = elim (get_needed_buffer_size fuel (some l)) [
  | none ↦ none
  | some zero ↦ some (0, [])
  | some (suc n) ↦ elim (copy_loop fuel (suc n) l []) [ none ↦ none | some out ↦ some (suc n, out) ]
]

-- The iterator is the rest of the list from the node that it stands on.
abbrev pub Iterator : Type 0
Iterator = Buffers

unfoldable pub iterator_create : Option Buffers → Option Iterator
iterator_create none = none
iterator_create (some []) = none
iterator_create (some (b ∷ l)) = some (b ∷ l)

unfoldable pub iterator_get_data : Iterator → Option Bytes
iterator_get_data [] = none
iterator_get_data (b ∷ l) = some b

unfoldable pub iterator_get_size : Iterator → ℕ
iterator_get_size [] = 0
iterator_get_size (b ∷ l) = length b

unfoldable pub iterator_next : Iterator → Bool × Iterator
iterator_next [] = (false, [])
iterator_next (b ∷ l) = (true, l)
