-- ===== src/Rpc/Client.antt =====
-- src/rpc/client.c: one synchronous call. The result is `*error` and, if it was asked for and the
-- error is HM_SUCCESS, the pack behind `*out_params`.
use hermes_core.Prelude.{Bool, not, ◌&&◌, Option, none, some, length, if◌then◌else◌, ◌==◌}
use hermes_core.Common.Bytes.{Bytes, put_u32, value_u32, is_given, contents}
use hermes_core.Common.Status.{Status, hm_success, hm_fail, hm_invalid_parameter}
use hermes_core.Rpc.ParamPack.{Pack}
use hermes_core.Rpc.ParamPack.Parse.{receive}
use hermes_core.Rpc.ParamPack.Wire.{send}
use hermes_core.Rpc.Transport.{Transport, Step, ok, err, ◌>>=◌, ◌>>◌, send_bytes, recv_bytes}

module _ {S : Type 0} (t : Transport S) where
  abbrev pub got_out : Option Pack × S → Step S (Status × Option Pack)
  got_out (none, s) = err hm_fail s
  got_out (some p, s) = ok (hm_success, some p) s

  unfoldable pub read_answer : (wants_out : Bool) → Status → S → Step S (Status × Option Pack)
  read_answer wants_out error s =
      if (error == hm_success) && wants_out then got_out (receive t s) else ok (error, none) s

  unfoldable pub call : Option Bytes → Pack → (wants_out : Bool) → S → Step S (Status × Option Pack)
  call name p wants_out = if not (is_given name) then err hm_invalid_parameter else do
    send_bytes t (put_u32 (length (contents name)))
    send_bytes t (contents name)
    send t p
    error ← recv_bytes t 4
    read_answer wants_out (value_u32 error)
