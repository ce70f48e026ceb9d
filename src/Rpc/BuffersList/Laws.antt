-- ===== src/Rpc/BuffersList/Laws.antt =====
-- The lists of buffers of src/rpc/buffers_list.c as sequences.
use hermes_core.Prelude.{
  ℕ, zero, suc, ◌≡◌, ◌∙◌, refl, ap, true, Option, none, some, List, [], ◌∷◌, ◌++◌, length, All,
  append_assoc, append-nil,
}
use hermes_core.Common.Bytes.{Bytes, is_given}
use hermes_core.Common.Status.{hm_success}
use hermes_core.Rpc.BuffersList.{
  Buffers, add, add_last, needed_size_loop, get_needed_buffer_size, to_buf, Iterator,
  iterator_create, iterator_get_data, iterator_next,
}

add_last-append : (l : Buffers) (b : Bytes) → add_last l b ≡ l ++ b ∷ []
unfolding add_last
add_last-append [] b = refl
add_last-append (x ∷ l) b = rw (add_last-append l b) refl

-- A buffer that is given is put behind the others.
pub add-append :
    (l : Buffers) (b : Bytes)
    → is_given (some b) ≡ true
    → add (some l) (some b) ≡ (hm_success, some (l ++ b ∷ []))
unfolding add
add-append l b h = rw (h, add_last-append l b) refl

needed_size_loop-none :
    (fuel : ℕ) (b : Bytes) (l : Buffers) (n : ℕ) → needed_size_loop fuel (b ∷ l) n ≡ none
unfolding needed_size_loop
needed_size_loop-none zero b l n = refl
needed_size_loop-none (suc fuel) b l n = needed_size_loop-none fuel b l _

-- Neither `hm_buffres_list_get_needed_buffer_size` nor `hm_buffers_list_to_buf` ever returns on a list
-- that has a node: no fuel is enough.
pub to_buf-diverges :
    (fuel : ℕ) (b : Bytes) (l : Buffers)
    → (get_needed_buffer_size fuel (some (b ∷ l)) ≡ none) × (to_buf fuel (some (b ∷ l)) ≡ none)
unfolding get_needed_buffer_size to_buf
to_buf-diverges fuel b l =
    let never = needed_size_loop-none fuel b l 0 in (never, rw (never, to_buf) refl)

-- Walking the iterator from the list's first node to its last collects the buffers: as long as the
-- node it stands on has data, that is taken and the iterator moves on.
pub walk : ℕ → Iterator → Buffers
walk zero it = []
walk (suc n) it = elim (iterator_get_data it) [
  | none ↦ []
  | some b ↦ b ∷ walk n (iterator_next it).1
]

walk_all : (l : Buffers) → walk (length l) l ≡ l
unfolding walk iterator_get_data iterator_next
walk_all [] = refl
walk_all (b ∷ l) = rw (walk_all l) refl

-- An iterator is made for a list with at least one node; walked over as many steps as the list has
-- nodes it meets the buffers in order.
pub iterator_create-walk :
    (b : Bytes) (l : Buffers)
    → (it : Iterator) × (iterator_create (some (b ∷ l)) ≡ some it)
      × (walk (length (b ∷ l)) it ≡ b ∷ l)
unfolding iterator_create
iterator_create-walk b l = (b ∷ l, refl, walk_all (b ∷ l))

-- Adding buffers one after another.
pub add_all : Option Buffers → List Bytes → Option Buffers
add_all l [] = l
add_all l (b ∷ bs) = add_all (add l (some b)).1 bs

-- Buffers that are added one after another, none of them empty, stand behind the list in that order.
pub add_all-append :
    (bs : List Bytes) (l : Buffers)
    → All (λ b. is_given (some b) ≡ true) bs
    → add_all (some l) bs ≡ some (l ++ bs)
unfolding add_all
add_all-append [] l h = rw append-nil refl
add_all-append (b ∷ bs) l h =
    rw (add-append l b h.0)
      (add_all-append bs (l ++ b ∷ []) h.1 ∙ ap (λ k. some k) (append_assoc l (b ∷ []) bs))
