-- ===== src/Rpc/Calling/Stores.antt =====
-- The calls of the stores' proxies, all of whose parameters are buffers.
use hermes_core.Prelude.{ℕ, ◌≤◌, ◌<◌, ◌≡◌, ◌≢◌, none, some, List, [], ◌∷◌, map, length}
use hermes_core.Common.Bytes.{Bytes, u32_mod}
use hermes_core.Common.HashTable.{Table}
use hermes_core.Common.Status.{Status, hm_success}
use hermes_core.Rpc.Calling.{extract_types, status_call, out_call}
use hermes_core.Rpc.Calling.Buffers.{weight, buffers_pack, buffers-IsSendable, pack_args-buffers}
use hermes_core.Rpc.Calling.Remote.{Knows, status_call-remote, out_call-failed, out_call-remote}
use hermes_core.Rpc.Loopback.{client_end}
use hermes_core.Rpc.Loopback.Calls.{idle}
use hermes_core.Rpc.ParamPack.{Pack, buffer_c, buffer_c_arg, max_params}
use hermes_core.Rpc.ParamPack.RoundTrip.{IsSendable, delivered}
use hermes_core.Rpc.Server.{Func}

-- The parameters as the server's function gets them.
abbrev pub arrived : List Bytes → Pack
arrived bs = delivered (buffers_pack buffer_c bs)

module _ {D : Type 0} {table : Table (Func D)} {name : Bytes} {f : Func D} (k : Knows table name f)
    (b : Bytes) (bs : List Bytes) (few : length (b ∷ bs) ≤ max_params)
    (small : weight (b ∷ bs) < u32_mod) where
  pub status_call-buffers :
      (d : D) (status : Status) (d' : D)
      → f (arrived (b ∷ bs)) d ≡ some (status, none, d')
      → status < u32_mod
      → status_call (client_end table) name (map buffer_c_arg (b ∷ bs)) (idle d) ≡ (status, idle d')
  status_call-buffers =
      status_call-remote k (map buffer_c_arg (b ∷ bs)) (pack_args-buffers (b ∷ bs) few)
        (buffers-IsSendable buffer_c b bs few small)

  pub failed-buffers :
      (types : List ℕ) (d : D) (status : Status) (d' : D)
      → f (arrived (b ∷ bs)) d ≡ some (status, none, d')
      → status ≢ hm_success
      → status < u32_mod
      → out_call (client_end table) name (map buffer_c_arg (b ∷ bs)) types (idle d)
        ≡ (status, [], idle d')
  failed-buffers =
      out_call-failed k (map buffer_c_arg (b ∷ bs)) (pack_args-buffers (b ∷ bs) few)
        (buffers-IsSendable buffer_c b bs few small)

  pub out_call-buffers :
      (types : List ℕ) (d : D) (out : Pack) (d' : D)
      → f (arrived (b ∷ bs)) d ≡ some (hm_success, some out, d')
      → IsSendable out
      → out_call (client_end table) name (map buffer_c_arg (b ∷ bs)) types (idle d)
        ≡ (let r = extract_types (delivered out) types in (r.0, r.1, idle d'))
  out_call-buffers =
      out_call-remote k (map buffer_c_arg (b ∷ bs)) (pack_args-buffers (b ∷ bs) few)
        (buffers-IsSendable buffer_c b bs few small)
