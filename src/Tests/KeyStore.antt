-- ===== src/Tests/KeyStore.antt =====
-- The key store over a small database.
use hermes_core.Prelude.{◌≡◌, ◌≢◌, refl, Option, none, some, [], ◌∷◌, arith}
use hermes_core.Common.Bytes.{Bytes}
use hermes_core.Common.HashTable.{Table}
use hermes_core.Common.Memory.{memcmp}
use hermes_core.Common.Status.{hm_success}
use hermes_core.KeyStore
use hermes_core.KeyStore.{
  same_id, set_token, get_token, del_token, set_rtoken, set_wtoken, get_rtoken, get_wtoken,
  del_rtoken, del_wtoken, get_indexed_rights,
}
use hermes_core.KeyStore.Access.{
  SetOutcome, DelOutcome, set_rtoken-access, del_rtoken-access, checked-defined,
}
use hermes_core.KeyStore.Names.{
  set_rtoken_name, set_wtoken_name, get_rtoken_name, get_wtoken_name, del_rtoken_name,
  del_wtoken_name, get_indexed_rights_name,
}
use hermes_core.KeyStore.Proxies.{set_rtoken_proxy, get_rtoken_proxy, get_indexed_rights_proxy}
use hermes_core.KeyStore.Remote.{set_rtoken-remote}
use hermes_core.KeyStore.RemoteGet.{get_rtoken-remote}
use hermes_core.KeyStore.RemoteRights.{get_indexed_rights-remote}
use hermes_core.KeyStore.Server.{server_create, key_server_complete}
use hermes_core.KeyStore.Stubs.{
  set_rtoken_stub, set_wtoken_stub, get_rtoken_stub, get_wtoken_stub, del_rtoken_stub,
  del_wtoken_stub, get_indexed_rights_stub,
}
use hermes_core.Rpc.Calling.Remote.{Knows}
use hermes_core.Rpc.Loopback.{client_end}
use hermes_core.Rpc.Loopback.Calls.{idle}
use hermes_core.Rpc.Server.{Func}
use hermes_core.Tests.Data.{key_db, key_get, key_set, key_del}

abbrev known :
    (t : Table (Func Bytes)) × (server_create key_db ≡ some (some t))
    × Knows t set_rtoken_name (set_rtoken_stub key_db)
    × Knows t set_wtoken_name (set_wtoken_stub key_db)
    × Knows t get_rtoken_name (get_rtoken_stub key_db)
    × Knows t get_wtoken_name (get_wtoken_stub key_db)
    × Knows t del_rtoken_name (del_rtoken_stub key_db)
    × Knows t del_wtoken_name (del_wtoken_stub key_db)
    × Knows t get_indexed_rights_name (get_indexed_rights_stub key_db)
unfolding KeyStore.check_backend
known = key_server_complete key_db refl

abbrev table : Table (Func Bytes)
table = known.0

abbrev block : Option Bytes
block = some (1 ∷ [])

abbrev user : Option Bytes
user = some (2 ∷ [])

abbrev owner : Option Bytes
owner = some (3 ∷ [])

abbrev token : Option Bytes
token = some (4 ∷ 4 ∷ [])

key_server_complete_example :
    (t : Table (Func Bytes)) × (server_create key_db ≡ some (some t))
    × Knows t set_rtoken_name (set_rtoken_stub key_db)
    × Knows t set_wtoken_name (set_wtoken_stub key_db)
    × Knows t get_rtoken_name (get_rtoken_stub key_db)
    × Knows t get_wtoken_name (get_wtoken_stub key_db)
    × Knows t del_rtoken_name (del_rtoken_stub key_db)
    × Knows t del_wtoken_name (del_wtoken_stub key_db)
    × Knows t get_indexed_rights_name (get_indexed_rights_stub key_db)
unfolding KeyStore.check_backend
key_server_complete_example = key_server_complete key_db refl

set_rtoken-remote_example :
    set_rtoken_proxy (client_end table) block user owner token (idle (9 ∷ []))
    ≡ (hm_success, idle (4 ∷ 4 ∷ []))
unfolding set_rtoken set_token same_id memcmp
set_rtoken-remote_example =
    set_rtoken-remote key_db known.2 block user owner token (9 ∷ []) (omega arith) (omega arith)

get_rtoken-remote_example :
    get_rtoken_proxy (client_end table) block user (idle (9 ∷ []))
    ≡ (hm_success, 9 ∷ [], 2 ∷ [], idle (9 ∷ []))
unfolding get_rtoken get_token
get_rtoken-remote_example =
    get_rtoken-remote key_db known.4 block user (9 ∷ []) (omega arith) (omega arith) (omega arith)

get_indexed_rights-remote_example :
    get_indexed_rights_proxy (client_end table) block 12 (idle [])
    ≡ (hm_success, 7 ∷ [], 3, idle [])
unfolding get_indexed_rights
get_indexed_rights-remote_example =
    get_indexed_rights-remote key_db known.8 block 12 [] (hm_success, 7 ∷ [], 3, []) (omega arith)
      (omega arith) refl (omega arith) (omega arith) (omega arith)

set_rtoken-access_example :
    SetOutcome key_get key_set
      (1 ∷ [])
      (2 ∷ [])
      (3 ∷ [])
      (4 ∷ 4 ∷ [])
      (9 ∷ [])
      (set_rtoken key_db block user owner token (9 ∷ []))
set_rtoken-access_example =
    set_rtoken-access key_db refl key_get key_set block user owner token (9 ∷ []) refl refl refl

del_rtoken-access_example :
    DelOutcome key_get key_del
      (1 ∷ [])
      (2 ∷ [])
      (3 ∷ [])
      (9 ∷ [])
      (del_rtoken key_db block user owner (9 ∷ []))
del_rtoken-access_example =
    del_rtoken-access key_db refl key_get key_get key_del block user owner (9 ∷ []) refl refl refl
      refl

checked-defined_example :
    (del_rtoken key_db block user owner [] ≢ none)
    × (del_wtoken key_db block user owner [] ≢ none)
    × (get_indexed_rights key_db block 12 [] ≢ none)
unfolding KeyStore.check_backend
checked-defined_example = checked-defined key_db refl block user owner 12 []
