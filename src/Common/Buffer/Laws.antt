-- ===== src/Common/Buffer/Laws.antt =====
-- Reading back what was written to a buffer of src/common/buffer.c.
use hermes_core.Prelude.{
  Bool, ℕ, suc, ◌+◌, ◌*◌, ◌/◌, ◌%◌, ◌^◌, ◌<◌, ◌≡◌, refl, true, false, none, some, [], ◌∷◌, ◌++◌,
  length, drop-append, length-append, arith, if◌then◌else◌, ltb, ◌==◌, inl, inr, Bool-cases,
  ltb_of_lt, append-nil, beq_refl,
}
use hermes_core.Common.Bytes.{
  Bytes, u32_mod, put_u32, get_u32, get_u32_small, length-put_u32, is_given,
}
use hermes_core.Common.Status.{hm_success}
use hermes_core.Common.Buffer.{
  Buffer, realloc, push_status, push_data, pop_status, pop_data, forward, is_dangling, at_curr,
  node_type_int, node_type_bin, block_capacity, buffer_incorrect_block_type, buffer_at_end,
}

-- A buffer that can be written, and whose position is inside its block, behind everything that was
-- read.
pub record IsRead (b : Buffer) : Type 0 where
  pub writable : b.read_only ≡ false
  pub here : b.curr_block ≡ b.block
  pub at_end : b.curr ≡ length b.bytes

-- The capacity that a block grows to.
abbrev blocks : ℕ → ℕ
blocks size = size / block_capacity + (if size % block_capacity == 0 then 0 else 1)

-- Where the block does not move, only the capacity changes.
realloc-stays :
    (b : Buffer) (size : ℕ)
    → b.read_only ≡ false
    → (c : ℕ) × (realloc false b size ≡ (hm_success, record b { capacity = c }))
unfolding realloc
realloc-stays b size writable =
    elim (Bool-cases (ltb (b.capacity * block_capacity % 2 ^ 64) size)) [
      | inl h ↦ (blocks size, rw (writable, h) refl)
      | inr h ↦ (b.capacity, rw (writable, h) refl)
    ]

-- Where it moves, it gets another number.
realloc-moves :
    (b : Buffer) (size : ℕ)
    → b.read_only ≡ false
    → b.capacity * block_capacity % 2 ^ 64 < size
    → (c : ℕ) × (realloc true b size ≡ (hm_success, record b { capacity = c; block = suc b.block }))
unfolding realloc
realloc-moves b size writable short = (blocks size, rw (writable, ltb_of_lt _ size short) refl)

-- A node put behind the data.
abbrev with_node : Buffer → ℕ → Bytes → Buffer
with_node b c node = record b { capacity = c; bytes = b.bytes ++ node }

push_status-stays :
    (b : Buffer) (status : ℕ)
    → IsRead b
    → (c : ℕ) × (push_status false b status
        ≡ (hm_success, with_node b c (node_type_int ∷ put_u32 status)))
unfolding push_status
push_status-stays b status k =
    let (c, run) = realloc-stays b ((length b.bytes + 5) % 2 ^ 64) k.writable in
    (c, rw (run, k.writable) refl)

push_data-stays :
    (b : Buffer) (input : Bytes)
    → IsRead b
    → is_given (some input) ≡ true
    → (c : ℕ) × (push_data false b (some input)
        ≡ (hm_success, with_node b c (node_type_bin ∷ put_u32 (length input) ++ input)))
unfolding push_data
push_data-stays b input k given =
    let (c, run) = realloc-stays b ((length b.bytes + length input + 5) % 2 ^ 64) k.writable in
    (c, rw (given, run, k.writable) refl)

at_curr-node : (b : Buffer) (c : ℕ) (node : Bytes) → IsRead b → at_curr (with_node b c node) ≡ node
at_curr-node b c node k = rw k.at_end (drop-append b.bytes node)

inside : (b : Buffer) → IsRead b → is_dangling b ≡ false
inside b k = rw k.here (rw (beq_refl b.block) refl)

read_word : (status : ℕ) → status < u32_mod → get_u32 (put_u32 status) ≡ some (status, [])
read_word status h = rw append-nil at (get_u32_small status [] h)

-- A status pushed to a writable buffer whose position is behind all its data is popped again, and
-- leaves the position behind all the data, if the block does not move. The status is given by its 32
-- bits.
pub push_status-pop_status :
    (past : Bool) (b : Buffer) (status : ℕ)
    → IsRead b
    → status < u32_mod
    → (b' : Buffer) × (pop_status past (push_status false b status).1
        ≡ some (hm_success, status, b'))
      × IsRead b'
unfolding pop_status
push_status-pop_status past b status k word =
    let (c, run) = push_status-stays b status k in
    let pushed = with_node b c (node_type_int ∷ put_u32 status) in
    (
      forward pushed 5,
      rw
          (
            run,
            inside b k,
            at_curr-node b c (node_type_int ∷ put_u32 status) k,
            read_word status word,
          )
          refl,
      record {
        writable = k.writable;
        here = k.here;
        at_end = omega (
          arith,
          k.at_end,
          length-append b.bytes (node_type_int ∷ put_u32 status),
          length-put_u32 status,
        );
      },
    )

-- Data pushed to a writable buffer whose position is behind all its data is not popped:
-- `buffer_pop_data` answers BUFFER_INCORRECT_BLOCK_TYPE on it. The data is not empty, and the block
-- does not move.
pub push_data-pop_data :
    (past : Bool) (b : Buffer) (input : Bytes)
    → IsRead b
    → is_given (some input) ≡ true
    → pop_data past (push_data false b (some input)).1
      ≡ some (buffer_incorrect_block_type, [], (push_data false b (some input)).1)
unfolding pop_data
push_data-pop_data past b input k given =
    let (c, run) = push_data-stays b input k given in
    rw (run, inside b k, at_curr-node b c (node_type_bin ∷ put_u32 (length input) ++ input) k) refl

-- If the push of a status moves the block, the position stays in the block that was given up: the next
-- pop answers BUFFER_AT_END, where that position compares at or behind the end, and reads memory that
-- was given up, where it does not. The buffer is writable, its position is behind all its data, and its
-- capacity is too small for the status.
pub push_status-moved :
    (past : Bool) (b : Buffer) (status : ℕ)
    → IsRead b
    → b.capacity * block_capacity % 2 ^ 64 < (length b.bytes + 5) % 2 ^ 64
    → pop_status past (push_status true b status).1
      ≡ (if past then some (buffer_at_end, 0, (push_status true b status).1) else none)
unfolding pop_status push_status
push_status-moved past b status k short =
    let (c, run) = realloc-moves b ((length b.bytes + 5) % 2 ^ 64) k.writable short in
    let lost : (b.block == suc b.block) ≡ false = ground arith in
    rw (run, k.writable, k.here, lost) refl
