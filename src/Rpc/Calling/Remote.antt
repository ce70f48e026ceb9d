-- ===== src/Rpc/Calling/Remote.antt =====
-- The calls of the proxies, over an idle connection to a server that knows the name.
use hermes_core.Prelude.{ℕ, ◌<◌, ◌≡◌, ◌≢◌, true, false, none, some, List, [], arith, length}
use hermes_core.Common.Bytes.{Bytes, u32_mod}
use hermes_core.Common.HashTable.{Table}
use hermes_core.Common.HashTable.Laws.{view, IsTable}
use hermes_core.Common.Memory.{IsText}
use hermes_core.Common.Status.{Status, hm_success}
use hermes_core.Rpc.Calling.{pack_args, extract_types, status_call, out_call}
use hermes_core.Rpc.Loopback.{client_end}
use hermes_core.Rpc.Loopback.Calls.{idle, call-outcome}
use hermes_core.Rpc.ParamPack.{Pack, Arg, created}
use hermes_core.Rpc.ParamPack.RoundTrip.{IsSendable, delivered}
use hermes_core.Rpc.Server.{Func}

-- A server that has `f` under `name`.
pub record Knows {D : Type 0} (table : Table (Func D)) (name : Bytes) (f : Func D) : Type 0 where
  pub valid : IsTable table
  pub text : IsText name
  pub short : length name < u32_mod
  pub known : view table name ≡ some f

module _ {D : Type 0} {table : Table (Func D)} {name : Bytes} {f : Func D}
    (k : Knows table name f) where
  module _ (args : List Arg) {p : Pack} (made : pack_args args ≡ created p) (h : IsSendable p) where
    pub status_call-remote :
        (d : D) (status : Status) (d' : D)
        → f (delivered p) d ≡ some (status, none, d')
        → status < u32_mod
        → status_call (client_end table) name args (idle d) ≡ (status, idle d')
    unfolding status_call
    status_call-remote d status d' runs word =
        let run =
          call-outcome table k.valid name f p false d (status, none, d') k.text k.short k.known h
            runs word tt in
        rw made (rw run (ground arith))

    -- A failure comes back as its status, with no results.
    pub out_call-failed :
        (types : List ℕ) (d : D) (status : Status) (d' : D)
        → f (delivered p) d ≡ some (status, none, d')
        → status ≢ hm_success
        → status < u32_mod
        → out_call (client_end table) name args types (idle d) ≡ (status, [], idle d')
    unfolding out_call
    out_call-failed types d status d' runs failed word =
        let run =
          call-outcome table k.valid name f p true d (status, none, d') k.text k.short k.known h
            runs word tt in
        rw made (rw run (ground arith))

    -- A pack comes back as it arrives, and the results are extracted from it.
    pub out_call-remote :
        (types : List ℕ) (d : D) (out : Pack) (d' : D)
        → f (delivered p) d ≡ some (hm_success, some out, d')
        → IsSendable out
        → out_call (client_end table) name args types (idle d)
          ≡ (let r = extract_types (delivered out) types in (r.0, r.1, idle d'))
    unfolding out_call
    out_call-remote types d out d' runs answer =
        let run =
          call-outcome table k.valid name f p true d (hm_success, some out, d') k.text k.short
            k.known h runs (omega arith) answer in
        rw made (rw run)
