-- ===== src/Rpc/ParamPack/Wire.antt =====
-- The output side of src/rpc/param_pack.c: the length, writing to a buffer, sending.
use hermes_core.Prelude.{
  ℕ, ◌+◌, ◌%◌, Bool, ◌||◌, not, List, [], ◌∷◌, ◌++◌, length, is_empty, if◌then◌else◌, ltb, ◌==◌,
}
use hermes_core.Common.Bytes.{Bytes, u32_mod, put_u32}
use hermes_core.Common.Status.{Status, hm_success, hm_invalid_parameter, hm_buffer_too_small}
use hermes_core.Rpc.ParamPack.{Pack, Node, int_node, buf_node, type_int32, type_buffer}
use hermes_core.Rpc.Transport.{Transport, Step, err, pure, ◌>>◌, send_bytes}

abbrev pub node_length : Node → ℕ
node_length (int_node v) = 8
node_length (buf_node k b) = 8 + length b

-- `whole_length` is a uint32_t.
unfoldable pub whole_length_loop : ℕ → List Node → ℕ
whole_length_loop acc [] = acc
whole_length_loop acc (n ∷ nodes) = whole_length_loop ((acc + node_length n) % u32_mod) nodes

unfoldable pub get_whole_length : Pack → ℕ
get_whole_length p = if p.readed then p.whole_data_length % u32_mod else whole_length_loop 4 p.nodes

-- Every kind of buffer is written as `HM_PARAM_TYPE_BUFFER`.
unfoldable pub node_bytes : Node → Bytes
node_bytes (int_node v) = put_u32 type_int32 ++ put_u32 v
node_bytes (buf_node k b) = put_u32 type_buffer ++ (put_u32 (length b) ++ b)

unfoldable pub nodes_bytes : List Node → Bytes
nodes_bytes [] = []
nodes_bytes (n ∷ nodes) = node_bytes n ++ nodes_bytes nodes

-- `output` is what is copied to the front of the buffer.
pub record Written : Type 0 where
  pub status : Status
  pub output : Bytes
  pub buffer_length : ℕ

unfoldable pub write : Pack → (has_buffer : Bool) → ℕ → Written
write p has_buffer buffer_length =
    let needed = get_whole_length p in
    let out = put_u32 (length p.nodes) ++ nodes_bytes p.nodes in
    if is_empty p.nodes || (needed == 0)
    then record { status = hm_invalid_parameter; output = []; buffer_length = buffer_length }
    else if not has_buffer || ltb buffer_length needed
    then record { status = hm_buffer_too_small; output = []; buffer_length = needed }
    else record { status = hm_success; output = out; buffer_length = length out }

module _ {S : Type 0} (t : Transport S) where
  unfoldable pub send_node : Node → S → Step S (Unit {0})
  send_node (int_node v) = do send_bytes t (put_u32 type_int32); send_bytes t (put_u32 v)
  send_node (buf_node k b) = do
    send_bytes t (put_u32 type_buffer)
    send_bytes t (put_u32 (length b))
    send_bytes t b

  unfoldable pub send_nodes : List Node → S → Step S (Unit {0})
  send_nodes [] = pure tt
  send_nodes (n ∷ nodes) = do send_node n; send_nodes nodes

  unfoldable pub send : Pack → S → Step S (Unit {0})
  send p = if is_empty p.nodes || (get_whole_length p == 0) then err hm_invalid_parameter else do
    send_bytes t (put_u32 (get_whole_length p))
    send_bytes t (put_u32 (length p.nodes))
    send_nodes p.nodes
