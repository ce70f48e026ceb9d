-- ===== src/Rpc/BuffersList/Extract.antt =====
-- Lists of buffers in one buffer, as `hm_buffers_list_extract` of src/rpc/buffers_list.c reads them.
use hermes_core.Prelude.{
  ℕ, zero, suc, ◌+◌, ◌*◌, ◌≤◌, ◌<◌, ◌≡◌, ◌∙◌, refl, sym, ap, true, Option, none, some, [], ◌∷◌,
  ◌++◌, length, drop, All, arith, append_assoc, append-nil, length-append, ltb, inl, inr,
  Bool-cases, Option-cases,
}
use hermes_core.Common.Bytes.{
  Bytes, put_u32, get_u32, u32_mod, get_u32_small, length-put_u32, is_given,
}
use hermes_core.Rpc.BuffersList.{Buffers, add, next_element, extract_loop, extract}
use hermes_core.Rpc.ParamPack.RoundTrip.{split_append}
use hermes_core.Rpc.BuffersList.Laws.{add-append}

-- Each buffer with its length in front, as a uint32_t.
pub encoding : Buffers → Bytes
encoding [] = []
encoding (b ∷ l) = put_u32 (length b) ++ (b ++ encoding l)

-- The buffers that a list can hold and the encoding can express.
abbrev pub IsElement : Bytes → Type 0
IsElement b = (0 < length b) × (length b < u32_mod)

next_element-encoding :
    (b : Bytes) (l : Buffers)
    → length b < u32_mod
    → next_element (encoding (b ∷ l)) ≡ some (b, encoding l)
unfolding next_element encoding
next_element-encoding b l h =
    ground (arith, get_u32_small (length b) (b ++ encoding l) h, split_append b (encoding l))

-- One turn of the loop of `hm_buffers_list_extract`.
extract_step :
    (fuel : ℕ) (x : ℕ) (xs : Bytes) (e r : Bytes) (acc : Buffers)
    → next_element (x ∷ xs) ≡ some (e, r)
    → is_given (some e) ≡ true
    → extract_loop (suc fuel) (x ∷ xs) (some acc) ≡ extract_loop fuel r (some (acc ++ e ∷ []))
unfolding extract_loop
extract_step fuel x xs e r acc next h = rw (next, extract_loop) (rw (add-append acc e h) refl)

starts : (b : Bytes) (l : Buffers) → (x : ℕ) × (xs : Bytes) × (encoding (b ∷ l) ≡ x ∷ xs)
unfolding encoding put_u32
starts b l = (_, _, refl)

is_given_long : (b : Bytes) → 0 < length b → is_given (some b) ≡ true
is_given_long [] h = absurd (omega arith)
is_given_long (x ∷ b) h = refl

extract_loop-encoding :
    (fuel : ℕ) (l acc : Buffers)
    → length l ≤ fuel
    → All IsElement l
    → extract_loop fuel (encoding l) (some acc) ≡ some (some (acc ++ l))
extract_loop-encoding fuel [] acc h elements = rw append-nil (unfold encoding extract_loop in refl)
extract_loop-encoding zero (b ∷ l) acc h elements = absurd (omega arith)
extract_loop-encoding (suc fuel) (b ∷ l) acc h elements =
    let (x, xs, e) = starts b l in
    let next = sym (ap (λ bs. next_element bs) e) ∙ next_element-encoding b l elements.0.1 in
    ap (λ bs. extract_loop (suc fuel) bs (some acc)) e
    ∙ extract_step fuel x xs b (encoding l) acc next (is_given_long b elements.0.0)
    ∙ extract_loop-encoding fuel l (acc ++ b ∷ []) (omega arith) elements.1
    ∙ ap (λ k. some (some k)) (append_assoc acc (b ∷ []) l)

length-encoding : (l : Buffers) → length l ≤ length (encoding l)
unfolding encoding
length-encoding [] = omega arith
length-encoding (b ∷ l) = omega (
  arith,
  length-append (put_u32 (length b)) (b ++ encoding l),
  length-append b (encoding l),
  length-put_u32 (length b),
  length-encoding l,
)

-- `hm_buffers_list_extract` of an encoding gives the list back: for a list with at least one buffer,
-- each of them not empty and shorter than 4 GiB.
pub extract-encoding :
    (b : Bytes) (l : Buffers)
    → All IsElement (b ∷ l)
    → extract (some (encoding (b ∷ l))) ≡ some (some (b ∷ l))
unfolding extract
extract-encoding b l elements =
    let (x, xs, e) = starts b l in
    let given : is_given (some (encoding (b ∷ l))) ≡ true = rw e refl in
    rw given (
      extract_loop-encoding (length (encoding (b ∷ l))) (b ∷ l) [] (length-encoding (b ∷ l))
        elements)

drop_le : (n : ℕ) (bs : Bytes) → length (drop n bs) ≤ length bs
drop_le zero bs = omega arith
drop_le (suc n) [] = omega arith
drop_le (suc n) (x ∷ bs) = omega (arith, drop_le n bs)

-- What follows an element is shorter than what it was read from.
abbrev Shorter : Bytes → Option (Bytes × Bytes) → Type 0
Shorter bs none = Unit
Shorter bs (some (e, r)) = length r < length bs

next_element-Shorter : (bs : Bytes) → Shorter bs (next_element bs)
unfolding next_element get_u32
next_element-Shorter [] = tt
next_element-Shorter (a ∷ []) = tt
next_element-Shorter (a ∷ b ∷ []) = tt
next_element-Shorter (a ∷ b ∷ c ∷ []) = tt
next_element-Shorter (a ∷ b ∷ c ∷ d ∷ r) =
    let len : ℕ = a + 256 * b + 65536 * c + 16777216 * d in
    elim (Bool-cases (ltb (length r) len)) [
      | inl h ↦ rw h tt
      | inr h ↦ rw h (omega (arith, drop_le len r))
    ]

extract_stop :
    (fuel : ℕ) (x : ℕ) (xs : Bytes) (acc : Buffers)
    → next_element (x ∷ xs) ≡ none
    → extract_loop (suc fuel) (x ∷ xs) (some acc) ≡ some none
unfolding extract_loop
extract_stop fuel x xs acc next = rw (next, extract_loop) refl

extract_refused :
    (fuel : ℕ) (x : ℕ) (xs : Bytes) (r : Bytes) (acc : Buffers)
    → next_element (x ∷ xs) ≡ some ([], r)
    → extract_loop (suc fuel) (x ∷ xs) (some acc) ≡ some none
unfolding extract_loop add
extract_refused fuel x xs r acc next = rw (next, extract_loop) refl

-- The loop ends within as many turns as there are bytes.
extract_loop_ends :
    (fuel : ℕ) (bs : Bytes) (acc : Buffers)
    → length bs ≤ fuel
    → (o : Option Buffers) × (extract_loop fuel bs (some acc) ≡ some o)
extract_loop_ends fuel [] acc h = (some acc, unfold extract_loop in refl)
extract_loop_ends zero (x ∷ xs) acc h = absurd (omega arith)
extract_loop_ends (suc fuel) (x ∷ xs) acc h = elim (Option-cases (next_element (x ∷ xs))) [
  | inl e ↦ (none, extract_stop fuel x xs acc e)
  | inr (([], r), e) ↦ (none, extract_refused fuel x xs r acc e)
  | inr ((y ∷ ys, r), e) ↦
      let less : length r < length (x ∷ xs) = rw e at (next_element-Shorter (x ∷ xs)) in
      let (o, rest) = extract_loop_ends fuel r (acc ++ (y ∷ ys) ∷ []) (omega arith) in
      (o, extract_step fuel x xs (y ∷ ys) r acc e refl ∙ rest)
]

-- `hm_buffers_list_extract` ends on every input, with a list or with NULL: the fuel, one turn for each
-- byte, is enough.
pub extract-total : (bs : Option Bytes) → (o : Option Buffers) × (extract bs ≡ some o)
unfolding extract
extract-total none = (none, refl)
extract-total (some []) = (none, refl)
extract-total (some (x ∷ xs)) = extract_loop_ends (length (x ∷ xs)) (x ∷ xs) [] (omega arith)
