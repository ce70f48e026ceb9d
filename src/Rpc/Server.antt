-- ===== src/Rpc/Server.antt =====
-- src/rpc/server.c: a table of functions under their names, and the handling of one call.
-- A function gets the received pack and the state behind `user_data`, and answers a status, the pack
-- behind `*out` and the new state. `none` as the result of a function or of a call is undefined
-- behaviour (a call through NULL, or a key comparison that leaves a key's memory).
pub mod Answers
pub mod Register
use hermes_core.Prelude.{
  ℕ, Bool, true, false, not, ◌||◌, Option, none, some, List, [], ◌∷◌, length, if◌then◌else◌, ◌==◌,
}
use hermes_core.Common.Bytes.{Bytes, put_u32, value_u32, is_given}
use hermes_core.Common.HashTable
use hermes_core.Common.HashTable.{Table}
use hermes_core.Common.Status.{Status, hm_success, hm_fail, hm_invalid_parameter}
use hermes_core.Rpc.ParamPack.{Pack}
use hermes_core.Rpc.ParamPack.Parse.{receive}
use hermes_core.Rpc.ParamPack.Wire.{send}
use hermes_core.Rpc.Transport.{Transport, Step, ok, err, status_of, state_of, send_bytes}

abbrev pub Func : Type 0 → Type 0
Func D = Pack → D → Option (Status × Option Pack × D)

abbrev pub Served : Type 0 → Type 0 → Type 0
Served S D = Option (Status × S × D)

-- `sizeof(hm_server_func_t)`.
abbrev pub func_size : ℕ
func_size = 8

module _ {D : Type 0} where
  unfoldable pub reg_func :
      Table (Func D) → Option Bytes → Option (Func D) → Option (Status × Table (Func D))
  reg_func table signature none = some (hm_invalid_parameter, table)
  reg_func table signature (some f) =
      if not (is_given signature)
      then some (hm_invalid_parameter, table)
      else HashTable.set table signature (some f) func_size

  abbrev pub registered :
      Option (Status × Table (Func D))
      → (Table (Func D) → Option (Option (Table (Func D))))
      → Option (Option (Table (Func D)))
  registered none rest = none
  registered (some (status, table)) rest =
      if not (status == hm_success) then some none else rest table

  -- The registrations that the stores make when they create a server (HM_RPC_SERVER_REG_FUNC, one after
  -- another): the server is destroyed at the first that fails, and the inner `none` is NULL.
  unfoldable pub reg_funcs :
      List (Bytes × Func D) → Table (Func D) → Option (Option (Table (Func D)))
  reg_funcs [] table = some (some table)
  reg_funcs ((name, f) ∷ fs) table =
      registered (reg_func table (some name) (some f)) λ table'. reg_funcs fs table'

module _ {S : Type 0} (t : Transport S) where
  unfoldable pub send_error : Status → S → Step S (Unit {0})
  send_error error s =
      if error == hm_success then err hm_invalid_parameter s else send_bytes t (put_u32 error) s

  unfoldable pub send_out : Option Pack → S → Step S (Unit {0})
  send_out none s = ok tt s
  send_out (some p) s = send t p s

  unfoldable pub server_send : Option Pack → S → Step S (Unit {0})
  server_send out s = elim (send_bytes t (put_u32 hm_success) s) [
    | err e s' ↦ err hm_fail s'
    | ok _ s' ↦ send_out out s'
  ]

  module _ {D : Type 0} (table : Table (Func D)) where
    -- The registered function has run, with the result `r`.
    unfoldable pub send_result : Status × Option Pack × D → S → Served S D
    send_result r s =
        if not (r.0 == hm_success)
        then (let sent = send_error r.0 s in some (status_of sent, state_of sent, r.2))
        else (let sent = server_send r.1 s in some (status_of sent, state_of sent, r.2))

    abbrev pub send_returned : Option (Status × Option Pack × D) → S → Served S D
    send_returned none s = none
    send_returned (some r) s = send_result r s

    -- The function on the pack that was received, if one was.
    abbrev pub run_on : Func D → D → Option Pack × S → Served S D
    run_on f d (none, s) = some (hm_fail, state_of (send_error hm_fail s), d)
    run_on f d (some p, s) = send_returned (f p d) s

    unfoldable pub run_func : Func D → S → D → Served S D
    run_func f s d = run_on f d (receive t s)

    unfoldable pub call_func : Option Bytes → S → D → Served S D
    call_func signature s d =
        if not (is_given signature)
        then some (hm_invalid_parameter, s, d)
        else elim (HashTable.get table signature) [
          | none ↦ none
          | some (status, none) ↦ some (hm_fail, state_of (send_error hm_fail s), d)
          | some (status, some f) ↦ run_func f s d
        ]

    unfoldable pub call : S → D → Served S D
    call s d =
        let first = t.recv s 4 in
        let second = t.recv first.2 (value_u32 first.1) in
        if not (first.0 == hm_success)
        then some (hm_fail, first.2, d)
        else if not (second.0 == hm_success)
        then some (hm_fail, second.2, d)
        else call_func (some second.1) second.2 d
