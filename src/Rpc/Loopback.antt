-- ===== src/Rpc/Loopback.antt =====
-- A client of src/rpc/client.c that is joined to a server of src/rpc/server.c: two queues of bytes in
-- memory stand for the transport, and the server handles one call when the client waits for bytes
-- that are not there.
pub mod Calls
use hermes_core.Prelude.{
  ℕ, ◌≡◌, refl, Bool, true, false, Option, none, some, List, [], ◌++◌, length, take, drop,
  append_assoc, append-nil, arith, if◌then◌else◌, ltb, ltb_of_lt, ◌<◌,
}
use hermes_core.Common.Bytes.{Bytes}
use hermes_core.Common.HashTable.{Table}
use hermes_core.Common.Status.{Status, hm_success, hm_fail}
use hermes_core.Rpc.ParamPack.RoundTrip.{split_append}
use hermes_core.Rpc.Server
use hermes_core.Rpc.Server.{Func, Served}
use hermes_core.Rpc.Transport.{Transport}
use hermes_core.Rpc.Transport.Channel.{Sink, Source}

pub record Wires : Type 0 where
  pub to_server : Bytes
  pub to_client : Bytes

unfoldable pub server_end : Transport Wires
server_end = record {
  send = λ s b. (hm_success, record s { to_client = s.to_client ++ b });
  recv = λ s n.
      if ltb (length s.to_server) n
      then (hm_fail, [], s)
      else (hm_success, take n s.to_server, record s { to_server = drop n s.to_server });
}

pub server_send :
    (s : Wires) (b : Bytes)
    → server_end.send s b ≡ (hm_success, record s { to_client = s.to_client ++ b })
unfolding server_end
server_send s b = refl

pub server_recv :
    (s : Wires) (b rest : Bytes)
    → server_end.recv (record s { to_server = b ++ rest }) (length b)
      ≡ (hm_success, b, record s { to_server = rest })
unfolding server_end
server_recv s b rest = let (long, front, back) = split_append b rest in rw (long, front, back)

abbrev pub server_sink : Sink server_end
server_sink = record {
  put = λ s b. record s { to_client = s.to_client ++ b };
  put-nil = λ s. rw append-nil;
  put-put = λ s a b. rw append_assoc;
  send-put = server_send;
}

abbrev pub server_source : Source server_end
server_source = record { give = λ s b. record s { to_server = b }; recv-give = server_recv }

-- The client's side, with the server's state behind it.
pub record World (D : Type 0) : Type 0 where
  pub wires : Wires
  pub db : D

module _ {D : Type 0} where
  -- After undefined behaviour in the server nothing is said of it: it stays as it was.
  abbrev pub after : World D → Served Wires D → World D
  after w none = w
  after w (some (status, s, d)) = record { wires = s; db = d }

  abbrev pub from_client : World D → ℕ → Status × Bytes × World D
  from_client w n = if ltb (length w.wires.to_client) n then (hm_fail, [], w) else (
    hm_success,
    take n w.wires.to_client,
    record w {
      wires = record { to_server = w.wires.to_server; to_client = drop n w.wires.to_client };
    },
  )

  abbrev pub sent : World D → Bytes → World D
  sent w b = record w {
    wires = record { to_server = w.wires.to_server ++ b; to_client = w.wires.to_client };
  }

  abbrev pub waiting : World D → Bytes → World D
  waiting w b = record w { wires = record { to_server = w.wires.to_server; to_client = b } }

module _ {D : Type 0} (table : Table (Func D)) where
  unfoldable pub serve : World D → World D
  serve w = after w (Server.call server_end table w.wires w.db)

  unfoldable pub client_end : Transport (World D)
  client_end = record {
    send = λ w b. (
      hm_success,
      record w {
        wires = record { to_server = w.wires.to_server ++ b; to_client = w.wires.to_client };
      },
    );
    recv = λ w n. from_client (if ltb (length w.wires.to_client) n then serve w else w) n;
  }

  pub client_send : (w : World D) (b : Bytes) → client_end.send w b ≡ (hm_success, sent w b)
  unfolding client_end
  client_send w b = refl

  pub client_recv :
      (w : World D) (b rest : Bytes)
      → client_end.recv (waiting w (b ++ rest)) (length b) ≡ (hm_success, b, waiting w rest)
  unfolding client_end
  client_recv w b rest =
      let (long, front, back) = split_append b rest in rw (long, long, front, back)

  abbrev pub client_sink : Sink client_end
  client_sink = record {
    put = sent;
    put-nil = λ w. rw append-nil;
    put-put = λ w a b. rw append_assoc;
    send-put = client_send;
  }

  abbrev pub client_source : Source client_end
  client_source = record { give = waiting; recv-give = client_recv }

  -- When the client waits for bytes and there are none, the server's answer is received.
  pub recv-serve :
      (w : World D) (b rest : Bytes) (v : World D)
      → w.wires.to_client ≡ []
      → 0 < length b
      → serve w ≡ waiting v (b ++ rest)
      → client_end.recv w (length b) ≡ (hm_success, b, waiting v rest)
  unfolding client_end
  recv-serve w b rest v quiet some_bytes served =
      let (long, front, back) = split_append b rest in
      let short : ltb (length w.wires.to_client) (length b) ≡ true =
        rw quiet (ltb_of_lt _ _ some_bytes) in
      rw (short, served, long, front, back)
