-- ===== src/Rpc/Transport/Channel.antt =====
-- What a transport must do for the two ends of include/hermes/rpc/transport.h to understand one
-- another: bytes sent come out in order, and a request for the bytes at hand is granted.
use hermes_core.Prelude.{◌≡◌, ◌++◌, [], length}
use hermes_core.Common.Bytes.{Bytes}
use hermes_core.Common.Status.{hm_success}
use hermes_core.Rpc.Transport.{Transport, ok, send_bytes, recv_bytes}

-- `put s b` is the state `s` after the bytes `b` have been sent.
pub record Sink {S : Type 0} (t : Transport S) : Type 0 where
  pub put : S → Bytes → S
  pub put-nil : (s : S) → put s [] ≡ s
  pub put-put : (s : S) (a b : Bytes) → put (put s a) b ≡ put s (a ++ b)
  pub send-put : (s : S) (b : Bytes) → t.send s b ≡ (hm_success, put s b)

-- `give s b` is the state `s` with the bytes `b` waiting to be received.
pub record Source {S : Type 0} (t : Transport S) : Type 0 where
  pub give : S → Bytes → S
  pub recv-give :
      (s : S) (b rest : Bytes)
      → t.recv (give s (b ++ rest)) (length b) ≡ (hm_success, b, give s rest)

module _ {S : Type 0} {t : Transport S} where
  pub send_bytes-put : (k : Sink t) (b : Bytes) (s : S) → send_bytes t b s ≡ ok tt (k.put s b)
  unfolding send_bytes
  send_bytes-put k b s = rw (k.send-put s b)

  pub recv_bytes-give :
      (k : Source t) (b rest : Bytes) (s : S)
      → recv_bytes t (length b) (k.give s (b ++ rest)) ≡ ok b (k.give s rest)
  unfolding recv_bytes
  recv_bytes-give k b rest s = rw (k.recv-give s b rest)
