-- ===== src/Tests/DataStore.antt =====
-- The data store and the credential store over small databases.
use hermes_core.Prelude.{◌≡◌, refl, Option, some, [], ◌∷◌, arith}
use hermes_core.Common.Bytes.{Bytes}
use hermes_core.Common.HashTable.{Table}
use hermes_core.Common.Status.{hm_success}
use hermes_core.CredentialStore
use hermes_core.CredentialStore.{
  get_pub_key_by_id, get_pub_key_by_id_name, get_pub_key_by_id_stub, get_pub_key_by_id_proxy,
}
use hermes_core.CredentialStore.Remote.{get_pub_key-remote}
use hermes_core.CredentialStore.Server
use hermes_core.CredentialStore.Server.{credential_server_complete}
use hermes_core.DataStore
use hermes_core.DataStore.{
  create_block, create_block_with_id, read_block, update_block, delete_block,
}
use hermes_core.DataStore.Names.{
  create_block_name, create_block_with_id_name, read_block_name, update_block_name,
  delete_block_name,
}
use hermes_core.DataStore.Proxies.{create_block_proxy, read_block_proxy}
use hermes_core.DataStore.RemoteOut.{create_block-remote, read_block-remote}
use hermes_core.DataStore.Server.{server_create, data_server_complete}
use hermes_core.DataStore.Stubs.{
  create_block_stub, create_block_with_id_stub, read_block_stub, update_block_stub,
  delete_block_stub,
}
use hermes_core.Rpc.Calling.Remote.{Knows}
use hermes_core.Rpc.Loopback.{client_end}
use hermes_core.Rpc.Loopback.Calls.{idle}
use hermes_core.Rpc.Server.{Func}
use hermes_core.Tests.Data.{data_db, credential_db}

abbrev known :
    (t : Table (Func Bytes)) × (server_create data_db ≡ some (some t))
    × Knows t create_block_name (create_block_stub data_db)
    × Knows t create_block_with_id_name (create_block_with_id_stub data_db)
    × Knows t read_block_name (read_block_stub data_db)
    × Knows t update_block_name (update_block_stub data_db)
    × Knows t delete_block_name (delete_block_stub data_db)
unfolding DataStore.check_backend
known = data_server_complete data_db refl

abbrev table : Table (Func Bytes)
table = known.0

abbrev id : Option Bytes
id = some (1 ∷ [])

abbrev block : Option Bytes
block = some (2 ∷ 2 ∷ [])

abbrev meta : Option Bytes
meta = some (3 ∷ [])

abbrev mac : Option Bytes
mac = some (4 ∷ [])

create_block-remote_example :
    create_block_proxy (client_end table) block meta mac (idle [])
    ≡ (hm_success, 5 ∷ [], idle (2 ∷ 2 ∷ []))
unfolding create_block
create_block-remote_example =
    create_block-remote data_db known.2 block meta mac [] (omega arith) (omega arith) (omega arith)

read_block-remote_example :
    read_block_proxy (client_end table) id (idle (9 ∷ []))
    ≡ (hm_success, 9 ∷ [], 6 ∷ [], idle (9 ∷ []))
unfolding read_block
read_block-remote_example =
    read_block-remote data_db known.4 id (9 ∷ []) (omega arith) (omega arith) (omega arith)

abbrev key_known :
    (t : Table (Func Bytes)) × (CredentialStore.Server.server_create credential_db ≡ some (some t))
    × Knows t get_pub_key_by_id_name (get_pub_key_by_id_stub credential_db)
unfolding CredentialStore.check_backend
key_known = credential_server_complete credential_db refl

get_pub_key-remote_example :
    get_pub_key_by_id_proxy (client_end key_known.0) id (idle (9 ∷ []))
    ≡ (hm_success, 9 ∷ [], idle (9 ∷ []))
unfolding get_pub_key_by_id
get_pub_key-remote_example =
    get_pub_key-remote credential_db key_known.2 id (9 ∷ []) (omega arith) (omega arith)
      (omega arith)
