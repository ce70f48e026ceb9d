-- ===== src/Rpc/Server/Answers.antt =====
-- What the server answers to a request, on every branch after the request has arrived.
use hermes_core.Prelude.{
  ◌<◌, ◌≡◌, ◌≢◌, Option, none, some, [], ◌++◌, length, arith, append_assoc, if◌then◌else◌, ◌==◌,
}
use hermes_core.Common.Bytes.{Bytes, put_u32, u32_mod, value_u32_word, length-put_u32}
use hermes_core.Common.HashTable.{Table}
use hermes_core.Common.HashTable.Laws.{
  view, IsTable, IsComparable, view-IsComparable, get-view, is_given_text,
}
use hermes_core.Common.Memory.{IsText}
use hermes_core.Common.Status.{Status, hm_success, hm_fail}
use hermes_core.Rpc.ParamPack.{Pack}
use hermes_core.Rpc.ParamPack.RoundTrip.{IsSendable, delivered}
use hermes_core.Rpc.ParamPack.Transfer.{message, send-message, receive-message}
use hermes_core.Rpc.Server.{
  Func, send_error, send_out, server_send, send_result, run_func, call_func, call,
}
use hermes_core.Rpc.Transport.{Transport, ok}
use hermes_core.Rpc.Transport.Channel.{Sink, Source, send_bytes-put}

-- A call on the wire: the length of the name, the name, the parameters.
unfoldable pub request : Bytes → Pack → Bytes
request name p = put_u32 (length name) ++ (name ++ message p)

-- A pack to answer, if there is one, is one that the format can hold.
abbrev pub IsAnswer : Option Pack → Type 0
IsAnswer none = Unit
IsAnswer (some p) = IsSendable p

abbrev pub out_message : Option Pack → Bytes
out_message none = []
out_message (some p) = message p

-- The answer to a function's result: a failure's status alone, or HM_SUCCESS and the pack.
unfoldable pub response : Status → Option Pack → Bytes
response status out =
    if status == hm_success then put_u32 hm_success ++ out_message out else put_u32 status

module _ {S : Type 0} {t : Transport S} (k : Sink t) where
  open k use {put, put-put, put-nil}

  send_out-message :
      (out : Option Pack) (s : S)
      → IsAnswer out
      → send_out t out s ≡ ok tt (put s (out_message out))
  unfolding send_out
  send_out-message none s h = rw put-nil
  send_out-message (some p) s h = send-message k p s h

  server_send-response :
      (out : Option Pack) (s : S)
      → IsAnswer out
      → server_send t out s ≡ ok tt (put s (put_u32 hm_success ++ out_message out))
  unfolding server_send
  server_send-response out s h =
      rw (send_bytes-put k (put_u32 hm_success) s, server_send)
        (rw (send_out-message out (put s (put_u32 hm_success)) h, put-put))

  send_error-put :
      (e : Status) (s : S) → e ≢ hm_success → send_error t e s ≡ ok tt (put s (put_u32 e))
  unfolding send_error
  send_error-put e s ne = ground (arith, send_bytes-put k (put_u32 e) s)

  module _ {D : Type 0} (table : Table (Func D)) where
    send_result-response :
        (r : Status × Option Pack × D) (s : S)
        → IsAnswer r.1
        → send_result t table r s ≡ some (hm_success, put s (response r.0 r.1), r.2)
    unfolding send_result response
    send_result-response r s h = ground (arith, server_send-response r.1 s h, send_error-put r.0 s)

-- Bytes that were given can be received while others are sent: both ends of one transport state.
module _ {S : Type 0} {t : Transport S} (sink : Sink t) (source : Source t) where
  open sink use {put}
  open source use {give, recv-give}

  module _ {D : Type 0} (table : Table (Func D)) where
    run_func-response :
        (f : Func D) (p : Pack) (rest : Bytes) (s : S) (d : D) (r : Status × Option Pack × D)
        → IsSendable p
        → f (delivered p) d ≡ some r
        → IsAnswer r.1
        → run_func t table f (give s (message p ++ rest)) d
          ≡ some (hm_success, put (give s rest) (response r.0 r.1), r.2)
    unfolding run_func
    run_func-response f p rest s d r h runs answers =
        rw (receive-message source p rest s h)
          (rw runs (send_result-response sink table r (give s rest) answers))

    -- The length and the name are taken off the transport, and the name is looked up.
    call-call_func :
        (name rest : Bytes) (s : S) (d : D)
        → length name < u32_mod
        → call t table (give s (put_u32 (length name) ++ (name ++ rest))) d
          ≡ call_func t table (some name) (give s rest) d
    unfolding call
    call-call_func name rest s d short =
        let first =
          rw (length-put_u32 (length name)) at
            (recv-give s (put_u32 (length name)) (name ++ rest)) in
        rw (first, value_u32_word (length name) short) (rw (recv-give s name rest))

    pub call-registered :
        (name : Bytes) (f : Func D) (p : Pack) (rest : Bytes) (s : S) (d : D)
        (r : Status × Option Pack × D)
        → IsTable table
        → IsText name
        → length name < u32_mod
        → view table name ≡ some f
        → IsSendable p
        → f (delivered p) d ≡ some r
        → IsAnswer r.1
        → call t table (give s (request name p ++ rest)) d
          ≡ some (hm_success, put (give s rest) (response r.0 r.1), r.2)
    unfolding request call_func
    call-registered name f p rest s d r valid text short known h runs answers =
        rw (append_assoc, append_assoc, call-call_func name (message p ++ rest) s d short)
          (rw
            (
              is_given_text name text,
              get-view table name valid text (view-IsComparable table name f valid known),
              known,
            )
            (run_func-response f p rest s d r h runs answers))

    -- A request for a C string that is not registered in a table of C strings is answered by HM_FAIL,
    -- as is the call, and changes no state behind the functions, but its parameters stay on the
    -- transport. The names in the table with the hash of this one have its length.
    pub call-unregistered :
        (name : Bytes) (p : Pack) (rest : Bytes) (s : S) (d : D)
        → IsTable table
        → IsText name
        → IsComparable table name
        → length name < u32_mod
        → view table name ≡ none
        → call t table (give s (request name p ++ rest)) d
          ≡ some (hm_fail, put (give s (message p ++ rest)) (put_u32 hm_fail), d)
    unfolding request call_func
    call-unregistered name p rest s d valid text keys short unknown =
        rw (append_assoc, append_assoc, call-call_func name (message p ++ rest) s d short)
          (rw (is_given_text name text, get-view table name valid text keys, unknown)
            (rw (send_error-put sink hm_fail (give s (message p ++ rest)) (omega arith))))
