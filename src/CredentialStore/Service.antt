-- ===== src/CredentialStore/Service.antt =====
-- src/credential_store/service.c: the service of the credential store, by the loop of Rpc/Service.
use hermes_core.Prelude.{Option, none, some, List}
use hermes_core.Common.Status.{Status}
use hermes_core.CredentialStore.{Db}
use hermes_core.CredentialStore.Server.{server_create}
use hermes_core.Rpc.Server
use hermes_core.Rpc.Service.{Turn, Service, Ending, start, stop, created_with}
use hermes_core.Rpc.Transport.{Transport}

module _ {S D : Type 0} where
  unfoldable pub service_create : Option (Transport S) → Option (Db D) → Option (Option (Service D))
  service_create none db = some none
  service_create (some t) none = some none
  service_create (some t) (some db) = created_with (server_create db)

  unfoldable pub service_start : Transport S → Option (Service D) → List Turn → S → D → Ending S D
  service_start t = start (Server.call t)

module _ {D : Type 0} where
  unfoldable pub service_stop : Option (Service D) → Status × Option (Service D)
  service_stop = stop
