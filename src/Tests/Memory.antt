-- ===== src/Tests/Memory.antt =====
-- Buffers and comparisons.
use Prim.Native.Nat.{Ordering}
use hermes_core.Prelude.{
  ℕ, zero, suc, ◌≡◌, refl, sym, true, false, none, some, [], ◌∷◌, arith, length,
}
use hermes_core.Common.Buffer.{
  Buffer, push_status, push_data, pop_status, pop_data, buffer_incorrect_block_type,
}
use hermes_core.Common.Buffer.Laws.{
  IsRead, push_status-pop_status, push_data-pop_data, push_status-moved,
}
use hermes_core.Common.Bytes.{Bytes}
use hermes_core.Common.MemCmp.{cst_time_memcmp}
use hermes_core.Common.MemCmp.Laws.{int_of, cst_time_memcmp-memcmp}
use hermes_core.Common.Memory.{memcmp}
use hermes_core.Common.Status.{hm_success}

-- `n` bytes.
zeros : ℕ → Bytes
zeros zero = []
zeros (suc n) = 0 ∷ zeros n

length-zeros : (n : ℕ) → length (zeros n) ≡ n
unfolding zeros
length-zeros zero = refl
length-zeros (suc n) = omega (arith, length-zeros n)

-- One block with `n` bytes that have all been read.
abbrev buffer : ℕ → Buffer
buffer n = record {
  capacity = 1;
  bytes = zeros n;
  block = 0;
  curr_block = 0;
  curr = n;
  read_only = false;
}

abbrev buffer-IsRead : (n : ℕ) → IsRead (buffer n)
buffer-IsRead n = record { writable = refl; here = refl; at_end = sym (length-zeros n) }

push_status-pop_status_example :
    (b' : Buffer) × (pop_status false (push_status false (buffer 3) 300).1
      ≡ some (hm_success, 300, b'))
    × IsRead b'
push_status-pop_status_example =
    push_status-pop_status false (buffer 3) 300 (buffer-IsRead 3) (omega arith)

push_data-pop_data_example :
    pop_data false (push_data false (buffer 3) (some (1 ∷ 2 ∷ []))).1
    ≡ some (buffer_incorrect_block_type, [], (push_data false (buffer 3) (some (1 ∷ 2 ∷ []))).1)
push_data-pop_data_example = push_data-pop_data false (buffer 3) (1 ∷ 2 ∷ []) (buffer-IsRead 3) refl

push_status-moved_example : pop_status false (push_status true (buffer 10238) 300).1 ≡ none
push_status-moved_example =
    push_status-moved false (buffer 10238) 300 (buffer-IsRead 10238)
      (omega (arith, length-zeros 10238))

cst_time_memcmp-memcmp_example :
    (o : Ordering) × (memcmp 2 (1 ∷ 2 ∷ []) (1 ∷ 5 ∷ []) ≡ some o)
    × (cst_time_memcmp (1 ∷ 2 ∷ []) (1 ∷ 5 ∷ []) 2 ≡ some (int_of o))
cst_time_memcmp-memcmp_example =
    cst_time_memcmp-memcmp (1 ∷ 2 ∷ []) (1 ∷ 5 ∷ []) 2 (omega arith) (omega arith)
      (omega arith, (omega arith, tt)) (omega arith, (omega arith, tt))
