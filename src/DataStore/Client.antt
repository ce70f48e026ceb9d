-- ===== src/DataStore/Client.antt =====
-- src/data_store/client.c: the client that src/mid_hermes holds. It is the RPC client over a transport;
-- each call tests its arguments and passes them on to the proxy.
use hermes_core.Prelude.{not, ◌&&◌, Option, none, some, [], if◌then◌else◌}
use hermes_core.Common.Bytes.{Bytes, is_given}
use hermes_core.Common.Status.{Status, hm_invalid_parameter}
use hermes_core.DataStore.Proxies.{
  create_block_proxy, create_block_with_id_proxy, read_block_proxy, update_block_proxy,
  delete_block_proxy,
}
use hermes_core.Rpc.Transport.{Transport}

pub record ClientSync (S : Type 0) : Type 0 where
  pub c : Transport S

module _ {S : Type 0} where
  unfoldable pub client_sync_create : Option (Transport S) → Option (ClientSync S)
  client_sync_create none = none
  client_sync_create (some t) = some (record { c = t })

  unfoldable pub call_create_block :
      Option (ClientSync S) → Option Bytes → Option Bytes → Option Bytes → S → Status × Bytes × S
  call_create_block none block meta mac s = (hm_invalid_parameter, [], s)
  call_create_block (some cl) block meta mac s =
      if not (is_given block && is_given meta && is_given mac)
      then (hm_invalid_parameter, [], s)
      else create_block_proxy cl.c block meta mac s

  unfoldable pub call_create_block_with_id :
      Option (ClientSync S)
      → Option Bytes
      → Option Bytes
      → Option Bytes
      → Option Bytes
      → S
      → Status × S
  call_create_block_with_id none id block meta mac s = (hm_invalid_parameter, s)
  call_create_block_with_id (some cl) id block meta mac s =
      if not (is_given block && is_given meta && is_given mac && is_given id)
      then (hm_invalid_parameter, s)
      else create_block_with_id_proxy cl.c id block meta mac s

  unfoldable pub call_read_block :
      Option (ClientSync S) → Option Bytes → S → Status × Bytes × Bytes × S
  call_read_block none id s = (hm_invalid_parameter, [], [], s)
  call_read_block (some cl) id s =
      if not (is_given id) then (hm_invalid_parameter, [], [], s) else read_block_proxy cl.c id s

  unfoldable pub call_update_block :
      Option (ClientSync S)
      → Option Bytes
      → Option Bytes
      → Option Bytes
      → Option Bytes
      → Option Bytes
      → S
      → Status × S
  call_update_block none id block meta mac old_mac s = (hm_invalid_parameter, s)
  call_update_block (some cl) id block meta mac old_mac s =
      if not (is_given id && is_given block && is_given meta && is_given mac && is_given old_mac)
      then (hm_invalid_parameter, s)
      else update_block_proxy cl.c id block meta mac old_mac s

  unfoldable pub call_delete_block :
      Option (ClientSync S) → Option Bytes → Option Bytes → S → Status × S
  call_delete_block none id old_mac s = (hm_invalid_parameter, s)
  call_delete_block (some cl) id old_mac s =
      if not (is_given id && is_given old_mac)
      then (hm_invalid_parameter, s)
      else delete_block_proxy cl.c id old_mac s
