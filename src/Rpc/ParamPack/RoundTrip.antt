-- ===== src/Rpc/ParamPack/RoundTrip.antt =====
-- What `hm_param_pack_write` puts into a buffer, `hm_param_pack_read` reads back.
use hermes_core.Prelude.{
  ℕ, suc, ◌≤◌, ◌<◌, ◌≡◌, refl, true, false, some, List, [], ◌∷◌, ◌++◌, map, length, is_empty, take,
  drop, All, arith, append_assoc, append-nil, length-append, take-append, drop-append, ltb_of_le,
  ltb,
}
use hermes_core.Common.Bytes.{Bytes, u32_mod, put_u32, get_u32_small}
use hermes_core.Rpc.ParamPack.{
  Pack, Node, int_node, buf_node, buffer, node_type_of, type_int32, type_buffer, max_params,
}
use hermes_core.Rpc.ParamPack.Wire.{node_bytes, nodes_bytes}
use hermes_core.Rpc.ParamPack.Length.{size, output, length-output}
use hermes_core.Rpc.ParamPack.Parse.{check_loop, read_param, read_buffer, read_loop, read, pack}
use hermes_core.Rpc.ParamPack.Bounds.{skip_param-read_param, read_buf-pack}

-- What a node is read back as: the kinds of buffers are not told apart.
abbrev pub received : Node → Node
received (int_node v) = int_node v
received (buf_node k b) = buf_node buffer b

-- The values and lengths are those of a uint32_t.
abbrev pub IsWord : Node → Type 0
IsWord (int_node v) = v < u32_mod
IsWord (buf_node k b) = length b < u32_mod

-- A pack that the wire format can hold.
pub record IsSendable (p : Pack) : Type 0 where
  pub fresh : p.readed ≡ false
  pub full : is_empty p.nodes ≡ false
  pub few : length p.nodes ≤ max_params
  pub words : All IsWord p.nodes
  pub small : size p < u32_mod

abbrev pub delivered : Pack → Pack
delivered p = record { nodes = map received p.nodes; readed = true; whole_data_length = size p }

pub split_append :
    (b rest : Bytes)
    → (ltb (length (b ++ rest)) (length b) ≡ false)
      × (take (length b) (b ++ rest) ≡ b)
      × (drop (length b) (b ++ rest) ≡ rest)
split_append b rest =
    (ltb_of_le _ _ (omega (arith, length-append b rest)), take-append b rest, drop-append b rest)

read_buffer-append :
    (b rest : Bytes)
    → length b < u32_mod
    → read_buffer (put_u32 (length b) ++ (b ++ rest)) ≡ some (b, rest)
unfolding read_buffer
read_buffer-append b rest h =
    ground (arith, get_u32_small (length b) (b ++ rest), split_append b rest)

read_param-node_bytes :
    (n : Node) (rest : Bytes)
    → IsWord n
    → read_param (node_bytes n ++ rest) ≡ some (received n, rest)
unfolding node_bytes node_type_of
read_param-node_bytes (int_node v) rest h = simp append_assoc (
    unfold read_param in
    ground (arith, get_u32_small type_int32 (put_u32 v ++ rest), get_u32_small v rest))
read_param-node_bytes (buf_node k b) rest h = simp append_assoc (
    unfold read_param in
    ground (
      arith,
      get_u32_small type_buffer (put_u32 (length b) ++ (b ++ rest)),
      read_buffer-append b rest,
    ))

loop_step :
    (k : ℕ) (bs r : Bytes) (n : Node) (nodes : List Node)
    → read_param bs ≡ some (n, r)
    → read_loop k r ≡ some nodes
    → check_loop k r ≡ true
    → (read_loop (suc k) bs ≡ some (n ∷ nodes)) × (check_loop (suc k) bs ≡ true)
unfolding read_loop check_loop
loop_step k bs r n nodes e reads passes =
    (rw (e, reads, read_loop), ground (arith, skip_param-read_param bs))

read_loop-nodes_bytes :
    (nodes : List Node) (rest : Bytes)
    → All IsWord nodes
    → (read_loop (length nodes) (nodes_bytes nodes ++ rest) ≡ some (map received nodes))
      × (check_loop (length nodes) (nodes_bytes nodes ++ rest) ≡ true)
unfolding nodes_bytes
read_loop-nodes_bytes [] rest h = (unfold read_loop in refl, unfold check_loop in refl)
read_loop-nodes_bytes (n ∷ nodes) rest (h, hs) =
    let (reads, passes) = read_loop-nodes_bytes nodes rest hs in
    rw append_assoc (
      loop_step (length nodes) _ _ _ _ (read_param-node_bytes n (nodes_bytes nodes ++ rest) h) reads
        passes)

-- What `hm_param_pack_write` puts out for a pack that the format can hold is read back as that pack:
-- the same parameters in the same order, every buffer under the type `HM_PARAM_TYPE_BUFFER`.
pub read-output : (p : Pack) → IsSendable p → read (some (output p)) ≡ pack (delivered p)
read-output p h =
    let (reads, passes) = read_loop-nodes_bytes p.nodes [] h.words in
    rw (← length-output p) (
      read_buf-pack (output p) (nodes_bytes p.nodes) (length p.nodes) _
        (get_u32_small (length p.nodes) (nodes_bytes p.nodes) (ground (arith, h.few)))
        (rw append-nil at reads) (rw append-nil at passes) h.few)
