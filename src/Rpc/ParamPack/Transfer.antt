-- ===== src/Rpc/ParamPack/Transfer.antt =====
-- Sending a pack over a transport and receiving it at the other end.
use hermes_core.Prelude.{◌≡◌, false, some, List, [], ◌∷◌, ◌++◌, arith, append_assoc, ◌==◌}
use hermes_core.Common.Bytes.{Bytes, put_u32, value_u32_word, length-put_u32}
use hermes_core.Rpc.Transport.{Transport, ok}
use hermes_core.Rpc.Transport.Channel.{Sink, Source, send_bytes-put}
use hermes_core.Rpc.ParamPack.{Pack, Node, int_node, buf_node}
use hermes_core.Rpc.ParamPack.Wire.{
  node_bytes, nodes_bytes, send_node, send_nodes, send, get_whole_length,
}
use hermes_core.Rpc.ParamPack.Parse.{receive}
use hermes_core.Rpc.ParamPack.Length.{size, output, length-output, get_whole_length-size}
use hermes_core.Rpc.ParamPack.RoundTrip.{IsSendable, delivered, read-output}

-- A pack on the wire: its size, then what `hm_param_pack_write` would put out.
unfoldable pub message : Pack → Bytes
message p = put_u32 (size p) ++ output p

whole_length : (p : Pack) → IsSendable p → get_whole_length p ≡ size p
whole_length p h = omega (arith, get_whole_length-size p h.fresh, h.small)

module _ {S : Type 0} {t : Transport S} (k : Sink t) where
  open k use {put, put-nil, put-put}

  send_node-put : (n : Node) (s : S) → send_node t n s ≡ ok tt (put s (node_bytes n))
  unfolding send_node node_bytes
  send_node-put (int_node v) s = simp (send_bytes-put k, put-put)
  send_node-put (buf_node b v) s = simp (send_bytes-put k, put-put, append_assoc)

  send_nodes-put :
      (nodes : List Node) (s : S) → send_nodes t nodes s ≡ ok tt (put s (nodes_bytes nodes))
  unfolding send_nodes nodes_bytes
  send_nodes-put [] s = rw put-nil
  send_nodes-put (n ∷ nodes) s = simp (send_node-put, send_nodes-put nodes, put-put)

  -- `hm_param_pack_send` of a pack that the format can hold succeeds on a transport that takes
  -- everything, and sends the size and then exactly what `hm_param_pack_write` writes.
  pub send-message : (p : Pack) (s : S) → IsSendable p → send t p s ≡ ok tt (put s (message p))
  unfolding send message
  send-message p s h =
      let some_size : (size p == 0) ≡ false = ground arith in
      rw (whole_length p h, h.full, some_size)
        (simp (send_bytes-put k, send_nodes-put, put-put, append_assoc))

module _ {S : Type 0} {t : Transport S} (k : Source t) where
  open k use {give, recv-give}

  -- From a transport that has the message of a pack that the format can hold, `hm_param_pack_receive`
  -- gives back that pack as it arrives, and takes no byte of what follows.
  pub receive-message :
      (p : Pack) (rest : Bytes) (s : S)
      → IsSendable p
      → receive t (give s (message p ++ rest)) ≡ (some (delivered p), give s rest)
  unfolding receive message
  receive-message p rest s h =
      let first =
        rw (length-put_u32 (size p)) at (recv-give s (put_u32 (size p)) (output p ++ rest)) in
      let second = rw (length-output p) at (recv-give s (output p) rest) in
      rw append_assoc (rw (first, value_u32_word (size p) h.small) (rw (second, read-output p h)))
