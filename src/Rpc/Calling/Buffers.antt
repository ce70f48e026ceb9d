-- ===== src/Rpc/Calling/Buffers.antt =====
-- Packs of buffers, as all the stores send them.
use hermes_core.Prelude.{
  ℕ, ◌+◌, ◌≤◌, ◌<◌, ◌≡◌, refl, List, [], ◌∷◌, map, length, All, arith, ap, ◌∙◌,
}
use hermes_core.Common.Bytes.{Bytes, u32_mod}
use hermes_core.Common.Status.{hm_success}
use hermes_core.Rpc.Calling.{pack_args, extract_types}
use hermes_core.Rpc.ParamPack.{
  Pack, buf_node, buffer_c, BufferKind, buffer_c_arg, created, buf_out, type_buffer, max_params,
  type_code, out_of,
}
use hermes_core.Rpc.ParamPack.Arguments.{pack_of, node_of, create-node_of, extract-out_of, IsPlain}
use hermes_core.Rpc.ParamPack.Length.{total}
use hermes_core.Rpc.ParamPack.RoundTrip.{IsSendable, IsWord, delivered, received}

-- The bytes that the buffers take in a message.
abbrev pub weight : List Bytes → ℕ
weight [] = 4
weight (b ∷ bs) = 8 + length b + weight bs

abbrev pub buffers_pack : BufferKind → List Bytes → Pack
buffers_pack k bs = pack_of (map (buf_node k) bs)

total-weight : (k : BufferKind) (bs : List Bytes) → total (map (buf_node k) bs) + 4 ≡ weight bs
unfolding total
total-weight k [] = refl
total-weight k (b ∷ bs) = omega (arith, total-weight k bs)

words : (k : BufferKind) (bs : List Bytes) → weight bs < u32_mod → All IsWord (map (buf_node k) bs)
words k [] h = tt
words k (b ∷ bs) h = (omega arith, words k bs (omega arith))

length-map_node : (k : BufferKind) (bs : List Bytes) → length (map (buf_node k) bs) ≡ length bs
length-map_node k [] = refl
length-map_node k (b ∷ bs) = omega (arith, length-map_node k bs)

pub buffers-IsSendable :
    (k : BufferKind) (b : Bytes) (bs : List Bytes)
    → length (b ∷ bs) ≤ max_params
    → weight (b ∷ bs) < u32_mod
    → IsSendable (buffers_pack k (b ∷ bs))
buffers-IsSendable k b bs few small = record {
  fresh = refl;
  full = refl;
  few = omega (arith, length-map_node k (b ∷ bs));
  words = words k (b ∷ bs) small;
  small = omega (arith, total-weight k (b ∷ bs));
}

map-node_of : (bs : List Bytes) → map node_of (map buffer_c_arg bs) ≡ map (buf_node buffer_c) bs
map-node_of [] = refl
map-node_of (b ∷ bs) = rw (map-node_of bs)

plain : (bs : List Bytes) → All IsPlain (map buffer_c_arg bs)
plain [] = tt
plain (b ∷ bs) = (tt, plain bs)

length-map_arg : (bs : List Bytes) → length (map buffer_c_arg bs) ≡ length bs
length-map_arg [] = refl
length-map_arg (b ∷ bs) = omega (arith, length-map_arg bs)

-- What the client packs.
pub pack_args-buffers :
    (bs : List Bytes)
    → length bs ≤ max_params
    → pack_args (map buffer_c_arg bs) ≡ created (buffers_pack buffer_c bs)
unfolding pack_args
pack_args-buffers bs few =
    create-node_of 0 (map buffer_c_arg bs) (plain bs) (omega (arith, length-map_arg bs))
    ∙ ap (λ ns. created (pack_of ns)) (map-node_of bs)

received_types :
    (k : BufferKind) (bs : List Bytes)
    → map type_code (map received (map (buf_node k) bs)) ≡ map (λ b. type_buffer) bs
received_types k [] = refl
received_types k (b ∷ bs) = rw (received_types k bs)

received_outs :
    (k : BufferKind) (bs : List Bytes)
    → map out_of (map received (map (buf_node k) bs)) ≡ map buf_out bs
received_outs k [] = refl
received_outs k (b ∷ bs) = rw (received_outs k bs)

-- What the other side extracts.
pub extract_types-buffers :
    (k : BufferKind) (bs : List Bytes)
    → extract_types (delivered (buffers_pack k bs)) (map (λ b. type_buffer) bs)
      ≡ (hm_success, map buf_out bs)
unfolding extract_types
extract_types-buffers k bs =
    rw (received_types k bs, received_outs k bs) at (extract-out_of (delivered (buffers_pack k bs)))
