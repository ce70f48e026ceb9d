-- ===== src/Rpc/Loopback/Calls.antt =====
-- The remote call as a whole: what `hm_rpc_client_sync_call` brings back from the server.
use hermes_core.Prelude.{
  ◌<◌, ◌≡◌, refl, Bool, ◌&&◌, Option, none, some, [], ◌++◌, length, append_assoc, append-nil, arith,
  if◌then◌else◌, ◌==◌, Bool-cases, inl, inr, beq_iff, ◌∙◌,
}
use hermes_core.Common.Bytes.{Bytes, put_u32, u32_mod, value_u32_word, value_u32, length-put_u32}
use hermes_core.Common.HashTable.{Table}
use hermes_core.Common.HashTable.Laws.{view, IsTable, is_given_text}
use hermes_core.Common.Memory.{IsText}
use hermes_core.Common.Status.{Status, hm_success, hm_fail}
use hermes_core.Rpc.Client
use hermes_core.Rpc.Client.{read_answer}
use hermes_core.Rpc.Loopback.{
  World, serve, client_end, client_sink, client_source, server_end, server_sink, server_source,
  waiting, sent, recv-serve,
}
use hermes_core.Rpc.ParamPack.{Pack}
use hermes_core.Rpc.ParamPack.RoundTrip.{IsSendable, delivered}
use hermes_core.Rpc.ParamPack.Transfer.{message, send-message, receive-message}
use hermes_core.Rpc.Server
use hermes_core.Rpc.Server.{Func}
use hermes_core.Rpc.ParamPack.Parse.{receive}
use hermes_core.Rpc.Server.Answers.{request, IsAnswer, out_message, response, call-registered}
use hermes_core.Rpc.Transport.{Step, ok, err, recv_bytes}
use hermes_core.Rpc.Transport.Channel.{send_bytes-put}

-- Nothing is on its way in either direction.
abbrev pub idle : {D : Type 0} → D → World D
idle d = record { wires = record { to_server = []; to_client = [] }; db = d }

-- The request has been sent and not yet been read.
abbrev pub asked : {D : Type 0} → Bytes → Pack → D → World D
asked name p d = record { wires = record { to_server = request name p; to_client = [] }; db = d }

-- The part of an answer behind its status.
abbrev pub tail : Status → Option Pack → Bytes
tail status out = if status == hm_success then out_message out else []

-- What the client makes of a function's status and pack. It reads a pack if it wants one and the
-- status is HM_SUCCESS; if it does not want the pack that the server sends, that stays unread.
abbrev pub taken : {D : Type 0} → Option Pack → D → Step (World D) (Status × Option Pack)
taken none d = err hm_fail (idle d)
taken (some p) d = ok (hm_success, some (delivered p)) (idle d)

abbrev pub outcome :
    {D : Type 0} → Bool → Status × Option Pack × D → Step (World D) (Status × Option Pack)
outcome wants_out r =
    if (r.0 == hm_success) && wants_out
    then taken r.1 r.2
    else ok (r.0, none) (waiting (idle r.2) (tail r.0 r.1))

response-tail :
    (status : Status) (out : Option Pack) → response status out ≡ put_u32 status ++ tail status out
unfolding response
response-tail status out = elim (Bool-cases (status == hm_success)) [
  | inl e ↦ rw (e, (beq_iff status hm_success).0 e)
  | inr e ↦ rw (e, append-nil)
]

sent-asked :
    {D : Type 0} (name : Bytes) (p : Pack) (d : D)
    → sent (sent (sent (idle d) (put_u32 (length name))) name) (message p) ≡ asked name p d
unfolding request
sent-asked name p d = simp append_assoc

module _ {D : Type 0} (table : Table (Func D)) (valid : IsTable table) where
  -- The client's request meets the server.
  serve-request :
      (name : Bytes) (f : Func D) (p : Pack) (d : D) (r : Status × Option Pack × D)
      → IsText name
      → length name < u32_mod
      → view table name ≡ some f
      → IsSendable p
      → f (delivered p) d ≡ some r
      → IsAnswer r.1
      → serve table (asked name p d)
        ≡ record { wires = record { to_server = []; to_client = response r.0 r.1 }; db = r.2 }
  unfolding serve
  serve-request name f p d r text short known h runs answers =
      let run = rw append-nil at (
        call-registered server_sink server_source table name f p []
          (record { to_server = []; to_client = [] }) d r valid text short known h runs answers) in
      rw run

  -- The client sends its request, and the first four bytes that it waits for are the status.
  first_answer :
      (name : Bytes) (f : Func D) (p : Pack) (d : D) (r : Status × Option Pack × D)
      → IsText name
      → length name < u32_mod
      → view table name ≡ some f
      → IsSendable p
      → f (delivered p) d ≡ some r
      → IsAnswer r.1
      → recv_bytes (client_end table) 4 (asked name p d)
        ≡ ok (put_u32 r.0) (waiting (idle r.2) (tail r.0 r.1))
  unfolding recv_bytes
  first_answer name f p d r text short known h runs answers =
      let served = serve-request name f p d r text short known h runs answers in
      let got = rw (length-put_u32 r.0) at (
        recv-serve table (asked name p d) (put_u32 r.0) (tail r.0 r.1) (idle r.2) refl
          (rw length-put_u32 (omega arith)) (served ∙ rw response-tail)) in
      rw got

  nothing_more : (d : D) → receive (client_end table) (idle d) ≡ (none, idle d)
  unfolding receive client_end serve Server.call server_end
  nothing_more d = refl

  read_answer-taken :
      (wants_out : Bool) (status : Status) (out : Option Pack) (d : D)
      → IsAnswer out
      → read_answer (client_end table) wants_out status (waiting (idle d) (tail status out))
        ≡ outcome wants_out (status, out, d)
  unfolding read_answer
  read_answer-taken wants_out status none d h = ground (arith, nothing_more d)
  read_answer-taken wants_out status (some p) d h =
      let got = rw append-nil at (receive-message (client_source table) p [] (idle d) h) in
      ground (arith, got)

  pub call-outcome :
      (name : Bytes) (f : Func D) (p : Pack) (wants_out : Bool) (d : D)
      (r : Status × Option Pack × D)
      → IsText name
      → length name < u32_mod
      → view table name ≡ some f
      → IsSendable p
      → f (delivered p) d ≡ some r
      → r.0 < u32_mod
      → IsAnswer r.1
      → Client.call (client_end table) (some name) p wants_out (idle d) ≡ outcome wants_out r
  unfolding Client.call
  call-outcome name f p wants_out d r text short known h runs word answers =
      let status : value_u32 (put_u32 r.0) ≡ r.0 = value_u32_word r.0 word in
      let first = first_answer name f p d r text short known h runs answers in
      rw (is_given_text name text) (
        simp (send_bytes-put (client_sink table), send-message (client_sink table) p _ h)
          (rw (sent-asked name p d, first)
            (rw status (read_answer-taken wants_out r.0 r.1 r.2 answers))))
