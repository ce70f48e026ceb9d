-- ===== src/MidHermes/DataStoreImpl.antt =====
-- src/mid_hermes/data_store_impl.c: the data store of include/hermes/mid_hermes_ll/interfaces/data_store.h
-- over the client of src/data_store/client.c.
use hermes_core.Prelude.{not, ◌&&◌, Option, none, some, [], if◌then◌else◌, ◌==◌}
use hermes_core.Common.Bytes.{Bytes, is_given}
use hermes_core.Common.Status.{Status, hm_success, hm_invalid_parameter}
use hermes_core.DataStore.Client.{
  ClientSync, client_sync_create, call_create_block, call_create_block_with_id, call_read_block,
  call_update_block, call_delete_block,
}
use hermes_core.MidHermesLl.Stores.{DataStoreOps}
use hermes_core.Rpc.Transport.{Transport}

module _ {S : Type 0} where
  -- A new block's id is stored if the call succeeded.
  abbrev pub with_new_id : Option Bytes → Status × Bytes × S → (Status × Option Bytes) × S
  with_new_id old (status, id, s) = ((status, if status == hm_success then some id else old), s)

  abbrev pub with_old_id : Option Bytes → Status × S → (Status × Option Bytes) × S
  with_old_id id (status, s) = ((status, id), s)

  abbrev pub paired : Status × Bytes × Bytes × S → (Status × Bytes × Bytes) × S
  paired (status, block, meta, s) = ((status, block, meta), s)

  module _ (cl : ClientSync S) where
    -- The call is chosen by whether there are an old MAC and an id.
    abbrev pub dispatched :
        Option Bytes
        → Option Bytes
        → Option Bytes
        → Option Bytes
        → Option Bytes
        → S
        → (Status × Option Bytes) × S
    dispatched id block meta mac (some old) s =
        with_old_id id (call_update_block (some cl) id block meta mac (some old) s)
    dispatched none block meta mac none s =
        with_new_id none (call_create_block (some cl) block meta mac s)
    dispatched (some id) block meta mac none s =
        with_old_id (some id) (call_create_block_with_id (some cl) (some id) block meta mac s)

    unfoldable pub hermes_data_store_set_block :
        Option Bytes
        → Option Bytes
        → Option Bytes
        → Option Bytes
        → Option Bytes
        → S
        → (Status × Option Bytes) × S
    hermes_data_store_set_block id block meta mac old_mac s =
        if not (is_given block && is_given meta && is_given mac)
        then ((hm_invalid_parameter, id), s)
        else dispatched id block meta mac old_mac s

    unfoldable pub hermes_data_store_get_block : Option Bytes → S → (Status × Bytes × Bytes) × S
    hermes_data_store_get_block id s =
        if not (is_given id)
        then ((hm_invalid_parameter, [], []), s)
        else paired (call_read_block (some cl) id s)

    unfoldable pub hermes_data_store_rem_block : Option Bytes → Option Bytes → S → Status × S
    hermes_data_store_rem_block id old_mac s =
        if not (is_given id && is_given old_mac)
        then (hm_invalid_parameter, s)
        else call_delete_block (some cl) id old_mac s

    abbrev pub hermes_data_store : DataStoreOps S
    hermes_data_store = record {
      set_block = hermes_data_store_set_block;
      get_block = hermes_data_store_get_block;
      rem_block = hermes_data_store_rem_block;
    }

  abbrev pub store_over : Option (ClientSync S) → Option (DataStoreOps S)
  store_over none = none
  store_over (some cl) = some (hermes_data_store cl)

  unfoldable pub hermes_data_store_create : Option (Transport S) → Option (DataStoreOps S)
  unfolding client_sync_create
  hermes_data_store_create t = store_over (client_sync_create t)
