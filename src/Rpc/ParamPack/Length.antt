-- ===== src/Rpc/ParamPack/Length.antt =====
-- How many bytes a pack takes, and what `hm_param_pack_write` does with the caller's buffer.
use hermes_core.Prelude.{
  ℕ, ◌+◌, ◌%◌, ◌<◌, ◌≡◌, refl, Bool, false, List, [], ◌∷◌, ◌++◌, length, is_empty, arith,
  length-append, ltb, ◌∙◌, if◌then◌else◌, ◌&&◌, not, ◌==◌,
}
use hermes_core.Common.Bytes.{Bytes, u32_mod, put_u32, length-put_u32}
use hermes_core.Common.Status.{hm_success, hm_buffer_too_small}
use hermes_core.Rpc.ParamPack.{Pack, Node, int_node, buf_node, type_int32, type_buffer}
use hermes_core.Rpc.ParamPack.Wire.{
  node_length, whole_length_loop, get_whole_length, node_bytes, nodes_bytes, write,
}

-- The size of the nodes, with no wrap-around.
unfoldable pub total : List Node → ℕ
total [] = 0
total (n ∷ nodes) = node_length n + total nodes

abbrev pub size : Pack → ℕ
size p = 4 + total p.nodes

abbrev pub output : Pack → Bytes
output p = put_u32 (length p.nodes) ++ nodes_bytes p.nodes

length-node_bytes : (n : Node) → length (node_bytes n) ≡ node_length n
unfolding node_bytes
length-node_bytes (int_node v) =
    omega (arith, length-append (put_u32 type_int32) (put_u32 v), length-put_u32)
length-node_bytes (buf_node k b) = omega (
  arith,
  length-append (put_u32 type_buffer) (put_u32 (length b) ++ b),
  length-append (put_u32 (length b)) b,
  length-put_u32,
)

length-nodes_bytes : (nodes : List Node) → length (nodes_bytes nodes) ≡ total nodes
unfolding nodes_bytes total
length-nodes_bytes [] = refl
length-nodes_bytes (n ∷ nodes) = omega (
  arith,
  length-append (node_bytes n) (nodes_bytes nodes),
  length-node_bytes n,
  length-nodes_bytes nodes,
)

pub length-output : (p : Pack) → length (output p) ≡ size p
length-output p = omega (
  arith,
  length-append (put_u32 (length p.nodes)) (nodes_bytes p.nodes),
  length-put_u32,
  length-nodes_bytes p.nodes,
)

pub whole_length_loop-total :
    (acc : ℕ) (nodes : List Node)
    → whole_length_loop acc nodes % u32_mod ≡ (acc + total nodes) % u32_mod
unfolding whole_length_loop total
whole_length_loop-total acc [] = omega arith
whole_length_loop-total acc (n ∷ nodes) =
    whole_length_loop-total ((acc + node_length n) % u32_mod) nodes ∙ omega arith

whole_length_loop-lt :
    (acc : ℕ) (nodes : List Node) → acc < u32_mod → whole_length_loop acc nodes < u32_mod
unfolding whole_length_loop
whole_length_loop-lt acc [] h = h
whole_length_loop-lt acc (n ∷ nodes) h =
    whole_length_loop-lt ((acc + node_length n) % u32_mod) nodes (omega arith)

-- The uint32_t that a pack that was created gives as its length is its size modulo `2 ^ 32`.
pub get_whole_length-size : (p : Pack) → p.readed ≡ false → get_whole_length p ≡ size p % u32_mod
unfolding get_whole_length
get_whole_length-size p fresh =
    rw fresh (omega (arith, whole_length_loop-total 4 p.nodes, whole_length_loop-lt 4 p.nodes))

some_size : (p : Pack) → (size p == 0) ≡ false
some_size p = ground arith

-- `hm_param_pack_write`, for a created pack that is not empty and whose size is below `2 ^ 32`: with a
-- buffer of at least that size it writes just that many bytes and says so; without a buffer, or with
-- a shorter one, it writes nothing, answers HM_BUFFER_TOO_SMALL and reports the size.
pub write-size :
    (p : Pack) (has_buffer : Bool) (cap : ℕ)
    → p.readed ≡ false
    → is_empty p.nodes ≡ false
    → size p < u32_mod
    → (length (output p) ≡ size p)
      × (write p has_buffer cap ≡ (
          if has_buffer && not (ltb cap (size p))
          then record { status = hm_success; output = output p; buffer_length = size p }
          else record { status = hm_buffer_too_small; output = []; buffer_length = size p }))
unfolding write
write-size p has_buffer cap fresh full small =
    let long = length-output p in
    let needed : get_whole_length p ≡ size p = omega (arith, get_whole_length-size p fresh) in
    (long, ground (arith, long, needed, some_size p))
