-- ===== src/Rpc/ParamPack/Bounds.antt =====
-- `hm_param_pack_read` makes no checks of its own: `hm_param_pack_check_buf_` has made them.
use hermes_core.Prelude.{
  ℕ, zero, suc, ◌≤◌, ◌<◌, ◌≡◌, refl, ◌⊎◌, inl, inr, true, false, Option, none, some, List, [], ◌∷◌,
  length, arith, ltb, Bool-cases, ltb_of_le, Option-cases, sym, ◌∙◌,
}
use hermes_core.Common.Bytes.{Bytes, get_u32, value_u32}
use hermes_core.Rpc.ParamPack.{Pack, Node, max_params}
use hermes_core.Rpc.ParamPack.Parse.{
  skip_param, skip_int, skip_buffer, check_loop, check_buf, read_param, read_buffer, read_loop,
  read_nodes, read, pack, null,
}

abbrev pub rest? : Option (Node × Bytes) → Option Bytes
rest? none = none
rest? (some (n, r)) = some r

-- The check takes the steps of the reading, and stops where that would pass the end.
pub skip_param-read_param : (bs : Bytes) → skip_param bs ≡ rest? (read_param bs)
unfolding skip_param skip_int skip_buffer read_param read_buffer
skip_param-read_param bs = ground arith

check-read_loop :
    (n : ℕ) (bs : Bytes)
    → check_loop n bs ≡ true
    → (nodes : List Node) × (read_loop n bs ≡ some nodes) × (length nodes ≡ n)
unfolding check_loop read_loop
check-read_loop zero bs h = ([], refl, refl)
check-read_loop (suc n) bs h = elim (Option-cases (read_param bs)) [
  | inl e ↦ absurd (ground (arith, skip_param-read_param bs))
  | inr ((node, r), e) ↦
      let rest : check_loop n r ≡ true = ground (arith, skip_param-read_param bs) in
      let (nodes, run, count) = check-read_loop n r rest in
      (node ∷ nodes, rw (e, run, read_loop), omega arith)
]

read_nodes-pack :
    (bs r : Bytes) (n : ℕ) (nodes : List Node)
    → get_u32 bs ≡ some (n, r)
    → read_loop n r ≡ some nodes
    → (read_nodes n bs
        ≡ pack (record { nodes = nodes; readed = true; whole_data_length = length bs }))
      × (value_u32 bs ≡ n)
unfolding read_nodes value_u32
read_nodes-pack bs r n nodes e run = (rw (e, read_nodes) (rw run), rw (e, value_u32))

pub read_buf-pack :
    (bs r : Bytes) (n : ℕ) (nodes : List Node)
    → get_u32 bs ≡ some (n, r)
    → read_loop n r ≡ some nodes
    → check_loop n r ≡ true
    → n ≤ max_params
    → read (some bs) ≡ pack (record { nodes = nodes; readed = true; whole_data_length = length bs })
unfolding read check_buf
read_buf-pack bs r n nodes e run passes few =
    let (reads, value) = read_nodes-pack bs r n nodes e run in
    let good : check_buf bs ≡ true = rw (e, check_buf) passes in
    rw (value, good, ltb_of_le max_params n few) reads

-- A buffer that passes the check is read without passing its end.
check-read_nodes :
    (bs : Bytes)
    → check_buf bs ≡ true
    → (p : Pack) × (read_nodes (value_u32 bs) bs ≡ pack p)
      × (length p.nodes ≡ value_u32 bs)
      × (p.readed ≡ true)
      × (p.whole_data_length ≡ length bs)
unfolding check_buf
check-read_nodes bs h = elim (Option-cases (get_u32 bs)) [
  | inl e ↦ absurd (ground arith)
  | inr ((n, r), e) ↦
      let (nodes, run, count) = check-read_loop n r (ground arith) in
      let (reads, value) = read_nodes-pack bs r n nodes e run in
      (
        record { nodes = nodes; readed = true; whole_data_length = length bs },
        rw value reads,
        count ∙ sym value,
        refl,
        refl,
      )
]

-- `hm_param_pack_read` answers NULL or a pack, and never reads outside the buffer. A pack comes
-- exactly of a buffer that passes the check and announces at most 20 parameters; it has as many
-- nodes as are announced, and it remembers the length of the buffer.
pub read_total :
    (bs : Bytes)
    → ((read (some bs) ≡ null) × ((check_buf bs ≡ false) ⊎ (max_params < value_u32 bs)))
      ⊎ ((p : Pack) × (read (some bs) ≡ pack p)
          × (check_buf bs ≡ true)
          × (length p.nodes ≡ value_u32 bs)
          × (value_u32 bs ≤ max_params)
          × (p.readed ≡ true)
          × (p.whole_data_length ≡ length bs))
unfolding read
read_total bs = elim (Bool-cases (check_buf bs)) [
  | inr bad ↦ inl (rw bad, inl bad)
  | inl good ↦ elim (Bool-cases (ltb max_params (value_u32 bs))) [
    | inl many ↦ inl (rw (good, many), inr (ground arith))
    | inr few ↦
        let (p, run, count, readed, whole) = check-read_nodes bs good in
        inr (p, rw (good, few) run, good, count, ground arith, readed, whole)
  ]
]
