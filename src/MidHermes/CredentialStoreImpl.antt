-- ===== src/MidHermes/CredentialStoreImpl.antt =====
-- src/mid_hermes/credential_store_impl.c: the credential store of
-- include/hermes/mid_hermes_ll/interfaces/credential_store.h over src/credential_store/client.c.
use hermes_core.Prelude.{not, Option, none, some, [], if◌then◌else◌}
use hermes_core.Common.Bytes.{Bytes, is_given}
use hermes_core.Common.Status.{Status, hm_invalid_parameter}
use hermes_core.CredentialStore.Client.{ClientSync, client_sync_create, call_get_pub_key_by_id}
use hermes_core.MidHermesLl.Stores.{CredentialStoreOps}
use hermes_core.Rpc.Transport.{Transport}

module _ {S : Type 0} where
  abbrev pub paired : Status × Bytes × S → (Status × Bytes) × S
  paired (status, key, s) = ((status, key), s)

  module _ (cl : ClientSync S) where
    unfoldable pub hermes_credential_store_get_public_key : Option Bytes → S → (Status × Bytes) × S
    hermes_credential_store_get_public_key id s =
        if not (is_given id)
        then ((hm_invalid_parameter, []), s)
        else paired (call_get_pub_key_by_id (some cl) id s)

    abbrev pub hermes_credential_store : CredentialStoreOps S
    hermes_credential_store = record { get_public_key = hermes_credential_store_get_public_key }

  abbrev pub store_over : Option (ClientSync S) → Option (CredentialStoreOps S)
  store_over none = none
  store_over (some cl) = some (hermes_credential_store cl)

  unfoldable pub hermes_credential_store_create :
      Option (Transport S) → Option (CredentialStoreOps S)
  unfolding client_sync_create
  hermes_credential_store_create t = store_over (client_sync_create t)
