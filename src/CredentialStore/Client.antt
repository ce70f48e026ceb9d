-- ===== src/CredentialStore/Client.antt =====
-- src/credential_store/client.c: the client that src/mid_hermes holds, over the RPC client.
use hermes_core.Prelude.{not, Option, none, some, [], if◌then◌else◌}
use hermes_core.Common.Bytes.{Bytes, is_given}
use hermes_core.Common.Status.{Status, hm_invalid_parameter}
use hermes_core.CredentialStore.{get_pub_key_by_id_proxy}
use hermes_core.Rpc.Transport.{Transport}

pub record ClientSync (S : Type 0) : Type 0 where
  pub c : Transport S

module _ {S : Type 0} where
  unfoldable pub client_sync_create : Option (Transport S) → Option (ClientSync S)
  client_sync_create none = none
  client_sync_create (some t) = some (record { c = t })

  unfoldable pub call_get_pub_key_by_id :
      Option (ClientSync S) → Option Bytes → S → Status × Bytes × S
  call_get_pub_key_by_id none id s = (hm_invalid_parameter, [], s)
  call_get_pub_key_by_id (some cl) id s =
      if not (is_given id) then (hm_invalid_parameter, [], s) else get_pub_key_by_id_proxy cl.c id s
