-- ===== src/Tests/Rpc.antt =====
-- Calls of a server with two functions, and its table.
use hermes_core.Prelude.{ℕ, ◌≡◌, ◌⊎◌, refl, false, none, some, [], ◌∷◌, ◌++◌, arith}
use hermes_core.Common.Bytes.{Bytes, put_u32}
use hermes_core.Common.HashTable
use hermes_core.Common.HashTable.{Table}
use hermes_core.Common.HashTable.Laws.{
  view, IsTable, answer, update, create-view, create-IsComparable, view-IsComparable, get-view,
  set-view,
}
use hermes_core.Common.Status.{hm_success, hm_fail}
use hermes_core.Rpc.Client
use hermes_core.Rpc.Loopback.{Wires, server_end, server_sink, server_source}
use hermes_core.Rpc.Server
use hermes_core.Rpc.Service
use hermes_core.Rpc.Service.{asked_to_stop, start, returned}
use hermes_core.Rpc.Service.Laws.{served, start-served, start-failed}
use hermes_core.Rpc.Server.{Func, reg_funcs}
use hermes_core.Rpc.Server.Answers.{request, response, call-registered, call-unregistered}
use hermes_core.Rpc.ParamPack.Transfer.{message}
use hermes_core.Tests.Data.{
  params, params-ok, results, results-ok, count, count_name, count-IsText, server,
}

abbrev table : Table (Func ℕ)
table = server.0

abbrev wires : Wires
wires = record { to_server = []; to_client = [] }

call-unregistered_example :
    Server.call server_end
      (HashTable.create {V = Func ℕ})
      (record { to_server = request count_name params ++ (8 ∷ []); to_client = [] })
      4
    ≡ some
        (hm_fail, record { to_server = message params ++ (8 ∷ []); to_client = put_u32 hm_fail }, 4)
call-unregistered_example =
    call-unregistered server_sink server_source HashTable.create count_name params (8 ∷ []) wires 4
      (create-view count_name).0 count-IsText (create-IsComparable (Func ℕ) count_name)
      (omega arith) (create-view count_name).1

get-view_example : HashTable.get table (some count_name) ≡ some (answer (view table count_name))
get-view_example =
    get-view table count_name server.2 count-IsText
      (view-IsComparable table count_name count server.2 server.3.0)

set-view_example :
    ((old : ℕ) × (view {V = ℕ} HashTable.create count_name ≡ some old)
      × (HashTable.set {V = ℕ} HashTable.create (some count_name) (some 7) 8
          ≡ some (hm_fail, HashTable.create)))
    ⊎ ((t' : Table ℕ) × (view {V = ℕ} HashTable.create count_name ≡ none)
        × (HashTable.set {V = ℕ} HashTable.create (some count_name) (some 7) 8
            ≡ some (hm_success, t'))
        × IsTable t'
        × ((j : Bytes) → view t' j ≡ update (view {V = ℕ} HashTable.create) count_name 7 j))
set-view_example =
    set-view {V = ℕ} HashTable.create count_name 7 8 (create-view count_name).0 count-IsText
      (create-IsComparable ℕ count_name) (omega arith)

-- One request, and a byte behind it.
abbrev asked : Wires
asked = record { to_server = request count_name params ++ (8 ∷ []); to_client = [] }

abbrev answered : Wires
answered = record { to_server = 8 ∷ []; to_client = response hm_success (some results) }

one_served : served (Server.call server_end table) 1 asked 4 ≡ some (answered, 5)
one_served =
    let ran =
      call-registered server_sink server_source table count_name count params (8 ∷ []) wires 4
        (hm_success, some results, 5) server.2 count-IsText (omega arith) server.3.0 params-ok refl
        results-ok in
    rw ran refl

-- A request for a name that is not registered.
abbrev unknown : Wires
unknown = record { to_server = request count_name params ++ (8 ∷ []); to_client = [] }

unknown_answered :
    Server.call server_end (HashTable.create {V = Func ℕ}) unknown 4
    ≡ some
        (hm_fail, record { to_server = message params ++ (8 ∷ []); to_client = put_u32 hm_fail }, 4)
unknown_answered =
    call-unregistered server_sink server_source HashTable.create count_name params (8 ∷ []) wires 4
      (create-view count_name).0 count-IsText (create-IsComparable (Func ℕ) count_name)
      (omega arith) (create-view count_name).1

start-failed_example :
    start
      (Server.call server_end)
      (some (record { s = HashTable.create {V = Func ℕ}; finish = false }))
      (Service.request ∷ [])
      unknown
      4
    ≡ returned hm_fail
        (record { to_server = message params ++ (8 ∷ []); to_client = put_u32 hm_fail })
        4
start-failed_example =
    start-failed (Server.call server_end) HashTable.create 0 [] unknown 4 unknown 4 hm_fail
      (record { to_server = message params ++ (8 ∷ []); to_client = put_u32 hm_fail }) 4 refl
      unknown_answered (omega arith)

start-served_example :
    start
      (Server.call server_end)
      (some (record { s = table; finish = false }))
      (Service.request ∷ asked_to_stop ∷ [])
      asked
      4
    ≡ returned hm_success answered 5
start-served_example =
    start-served (Server.call server_end) table 1 [] asked 4 answered 5 one_served
