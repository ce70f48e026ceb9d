-- ===== src/KeyStore/Client.antt =====
-- src/key_store/client.c: the client that src/mid_hermes holds. It is the RPC client over a transport;
-- each call passes its arguments on to the proxy, and a client that is NULL is refused.
use hermes_core.Prelude.{ℕ, Option, none, some, []}
use hermes_core.Common.Bytes.{Bytes}
use hermes_core.Common.Status.{Status, hm_invalid_parameter}
use hermes_core.KeyStore.Proxies.{
  set_rtoken_proxy, set_wtoken_proxy, get_rtoken_proxy, get_wtoken_proxy, del_rtoken_proxy,
  del_wtoken_proxy, get_indexed_rights_proxy,
}
use hermes_core.Rpc.Transport.{Transport}

pub record ClientSync (S : Type 0) : Type 0 where
  pub c : Transport S

module _ {S : Type 0} where
  unfoldable pub client_sync_create : Option (Transport S) → Option (ClientSync S)
  client_sync_create none = none
  client_sync_create (some t) = some (record { c = t })

  unfoldable pub call_set_rtoken :
      Option (ClientSync S)
      → Option Bytes
      → Option Bytes
      → Option Bytes
      → Option Bytes
      → S
      → Status × S
  call_set_rtoken none block user owner token s = (hm_invalid_parameter, s)
  call_set_rtoken (some cl) block user owner token s =
      set_rtoken_proxy cl.c block user owner token s

  unfoldable pub call_set_wtoken :
      Option (ClientSync S)
      → Option Bytes
      → Option Bytes
      → Option Bytes
      → Option Bytes
      → S
      → Status × S
  call_set_wtoken none block user owner token s = (hm_invalid_parameter, s)
  call_set_wtoken (some cl) block user owner token s =
      set_wtoken_proxy cl.c block user owner token s

  unfoldable pub call_get_rtoken :
      Option (ClientSync S) → Option Bytes → Option Bytes → S → Status × Bytes × Bytes × S
  call_get_rtoken none block user s = (hm_invalid_parameter, [], [], s)
  call_get_rtoken (some cl) block user s = get_rtoken_proxy cl.c block user s

  unfoldable pub call_get_wtoken :
      Option (ClientSync S) → Option Bytes → Option Bytes → S → Status × Bytes × Bytes × S
  call_get_wtoken none block user s = (hm_invalid_parameter, [], [], s)
  call_get_wtoken (some cl) block user s = get_wtoken_proxy cl.c block user s

  unfoldable pub call_del_rtoken :
      Option (ClientSync S) → Option Bytes → Option Bytes → Option Bytes → S → Status × S
  call_del_rtoken none block user owner s = (hm_invalid_parameter, s)
  call_del_rtoken (some cl) block user owner s = del_rtoken_proxy cl.c block user owner s

  unfoldable pub call_del_wtoken :
      Option (ClientSync S) → Option Bytes → Option Bytes → Option Bytes → S → Status × S
  call_del_wtoken none block user owner s = (hm_invalid_parameter, s)
  call_del_wtoken (some cl) block user owner s = del_wtoken_proxy cl.c block user owner s

  unfoldable pub call_get_indexed_rights :
      Option (ClientSync S) → Option Bytes → ℕ → S → Status × Bytes × ℕ × S
  call_get_indexed_rights none block index s = (hm_invalid_parameter, [], 0, s)
  call_get_indexed_rights (some cl) block index s = get_indexed_rights_proxy cl.c block index s
