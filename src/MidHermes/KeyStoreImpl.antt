-- ===== src/MidHermes/KeyStoreImpl.antt =====
-- src/mid_hermes/key_store_impl.c: the key store of include/hermes/mid_hermes_ll/interfaces/key_store.h
-- over the client of src/key_store/client.c. The arguments of the interface are in another order than
-- the client's, and a token that is not given is deleted.
use hermes_core.Prelude.{ℕ, ◌+◌, ◌%◌, ◌^◌, not, ◌&&◌, Option, none, some, [], if◌then◌else◌, ◌==◌}
use hermes_core.Common.Bytes.{Bytes, is_given}
use hermes_core.Common.Status.{Status, hm_success, hm_fail, hm_invalid_parameter}
use hermes_core.KeyStore.Client.{
  ClientSync, client_sync_create, call_set_rtoken, call_set_wtoken, call_get_rtoken,
  call_get_wtoken, call_del_rtoken, call_del_wtoken, call_get_indexed_rights,
}
use hermes_core.MidHermesLl.Stores.{KeyStoreOps}
use hermes_core.Rpc.Transport.{Transport}

pub record Iterator : Type 0 where
  pub block_id : Option Bytes
  pub current_user_id : Option Bytes
  pub current_rights_mask : ℕ
  pub current_index : ℕ

-- The user that the iterator stood at is dropped, and the index goes up, before the call.
abbrev pub advanced : Iterator → Iterator
advanced i = record i { current_user_id = none; current_index = (i.current_index + 1) % 2 ^ 64 }

module _ {S : Type 0} where
  abbrev pub paired : Status × Bytes × Bytes × S → (Status × Bytes × Bytes) × S
  paired (status, token, owner, s) = ((status, token, owner), s)

  abbrev pub created_at : Option Bytes → Status × Bytes × ℕ × S → Option Iterator × S
  created_at block (status, user, mask, s) = if not (status == hm_success) then (none, s) else (
    some (record {
      block_id = block;
      current_user_id = some user;
      current_rights_mask = mask;
      current_index = 0;
    }),
    s,
  )

  abbrev pub moved_to : Iterator → Status × Bytes × ℕ × S → (Status × Iterator) × S
  moved_to i (status, user, mask, s) =
      if not (status == hm_success)
      then ((hm_fail, i), s)
      else ((hm_success, record i { current_user_id = some user; current_rights_mask = mask }), s)

  module _ (cl : ClientSync S) where
    unfoldable pub hermes_key_store_get_rtoken :
        Option Bytes → Option Bytes → S → (Status × Bytes × Bytes) × S
    hermes_key_store_get_rtoken user block s =
        if not (is_given user && is_given block)
        then ((hm_invalid_parameter, [], []), s)
        else paired (call_get_rtoken (some cl) block user s)

    unfoldable pub hermes_key_store_get_wtoken :
        Option Bytes → Option Bytes → S → (Status × Bytes × Bytes) × S
    hermes_key_store_get_wtoken user block s =
        if not (is_given user && is_given block)
        then ((hm_invalid_parameter, [], []), s)
        else paired (call_get_wtoken (some cl) block user s)

    unfoldable pub hermes_key_store_set_rtoken :
        Option Bytes → Option Bytes → Option Bytes → Option Bytes → S → Status × S
    hermes_key_store_set_rtoken user block token owner s =
        if not (is_given user && is_given block)
        then (hm_invalid_parameter, s)
        else if is_given token
        then call_set_rtoken (some cl) block user owner token s
        else call_del_rtoken (some cl) block user owner s

    unfoldable pub hermes_key_store_set_wtoken :
        Option Bytes → Option Bytes → Option Bytes → Option Bytes → S → Status × S
    hermes_key_store_set_wtoken user block token owner s =
        if not (is_given user && is_given block)
        then (hm_invalid_parameter, s)
        else if is_given token
        then call_set_wtoken (some cl) block user owner token s
        else call_del_wtoken (some cl) block user owner s

    unfoldable pub hermes_key_store_iterator_create : Option Bytes → S → Option Iterator × S
    hermes_key_store_iterator_create block s =
        if not (is_given block)
        then (none, s)
        else created_at block (call_get_indexed_rights (some cl) block 0 s)

    unfoldable pub hermes_key_store_iterator_next : Iterator → S → (Status × Iterator) × S
    hermes_key_store_iterator_next i s =
        let j = advanced i in
        moved_to j (call_get_indexed_rights (some cl) i.block_id j.current_index s)

    abbrev pub hermes_key_store : KeyStoreOps S Iterator
    hermes_key_store = record {
      get_rtoken = hermes_key_store_get_rtoken;
      get_wtoken = hermes_key_store_get_wtoken;
      set_rtoken = hermes_key_store_set_rtoken;
      set_wtoken = hermes_key_store_set_wtoken;
      iterator_create = hermes_key_store_iterator_create;
      iterator_next = hermes_key_store_iterator_next;
      iterator_get_user_id = λ i. i.current_user_id;
    }

  abbrev pub store_over : Option (ClientSync S) → Option (KeyStoreOps S Iterator)
  store_over none = none
  store_over (some cl) = some (hermes_key_store cl)

  unfoldable pub hermes_key_store_create : Option (Transport S) → Option (KeyStoreOps S Iterator)
  unfolding client_sync_create
  hermes_key_store_create t = store_over (client_sync_create t)
