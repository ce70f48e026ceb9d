-- ===== src/Rpc/Calling.antt =====
-- The text that every proxy of the stores (`*_sync_proxy`) repeats around
-- `hm_rpc_client_sync_call`, with the macros `HM_PARAM_PACK` and `HM_PARAM_EXTRACT` of
-- include/hermes/rpc/param_pack.h.
pub mod Remote
pub mod Buffers
pub mod Stores
pub mod Served
pub mod Answered
use hermes_core.Prelude.{
  ℕ, zero, suc, Bool, true, false, not, Option, none, some, List, [], ◌∷◌, map, if◌then◌else◌, ◌==◌,
}
use hermes_core.Common.Bytes.{Bytes}
use hermes_core.Common.Status.{Status, hm_success, hm_fail}
use hermes_core.Rpc.Client
use hermes_core.Rpc.ParamPack
use hermes_core.Rpc.ParamPack.{
  Pack, Arg, Created, created, null, diverged, Out, int_out, buf_out, buffers_list_out, magic,
}
use hermes_core.Rpc.Transport.{Transport, Step, ok, err}

-- No list of buffers is passed by the stores, so no fuel is needed.
unfoldable pub pack_args : List Arg → Created
pack_args args = ParamPack.create 0 (map (λ a. (magic, a)) args)

unfoldable pub extract_types : Pack → List ℕ → Status × List Out
extract_types p types = ParamPack.extract (some p) (map (λ c. (magic, c)) types)

-- The variables that the results are stored in: NULL until something is stored.
abbrev pub buf_at : List Out → ℕ → Option Bytes
buf_at [] i = none
buf_at (buf_out b ∷ outs) zero = some b
buf_at (o ∷ outs) zero = none
buf_at (o ∷ outs) (suc i) = buf_at outs i

abbrev pub int_at : List Out → ℕ → ℕ
int_at [] i = 0
int_at (int_out v ∷ outs) zero = v
int_at (o ∷ outs) zero = 0
int_at (o ∷ outs) (suc i) = int_at outs i

module _ {S : Type 0} (t : Transport S) where
  -- A proxy that asks for no pack returns the call's own failure, or else the remote status.
  abbrev pub status_result : Step S (Status × Option Pack) → Status × S
  status_result (err e s) = (e, s)
  status_result (ok (status, out) s) = (status, s)

  abbrev pub status_of_created : Bytes → Created → S → Status × S
  status_of_created name (created p) s = status_result (Client.call t (some name) p false s)
  status_of_created name null s = (hm_fail, s)
  status_of_created name diverged s = (hm_fail, s)

  unfoldable pub status_call : Bytes → List Arg → S → Status × S
  status_call name args s = status_of_created name (pack_args args) s

  -- A proxy that asks for a pack goes on to extract its results if the remote status is HM_SUCCESS.
  abbrev pub out_result : List ℕ → Step S (Status × Option Pack) → Status × List Out × S
  out_result types (err e s) = (e, [], s)
  out_result types (ok (status, none) s) = (status, [], s)
  out_result types (ok (status, some p) s) =
      if not (status == hm_success)
      then (status, [], s)
      else (let r = extract_types p types in (r.0, r.1, s))

  abbrev pub out_of_created : Bytes → List ℕ → Created → S → Status × List Out × S
  out_of_created name types (created p) s = out_result types (Client.call t (some name) p true s)
  out_of_created name types null s = (hm_fail, [], s)
  out_of_created name types diverged s = (hm_fail, [], s)

  unfoldable pub out_call : Bytes → List Arg → List ℕ → S → Status × List Out × S
  out_call name args types s = out_of_created name types (pack_args args) s
