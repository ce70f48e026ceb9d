-- ===== src/MidHermes/Safety.antt =====
-- Whether the operations of src/mid_hermes/mid_hermes.c end with a status, whatever the stores answer.
use hermes_core.Prelude.{Option}
use hermes_core.Common.Bytes.{Bytes}
use hermes_core.MidHermes.{MidHermes, mid_hermes_create_with_services}
use hermes_core.MidHermesLl.Run.Safe.{Gives, bind-Gives, pure-Gives, guard-Gives}
use hermes_core.MidHermesLl.Stores.{World, KeyStoreOps, DataStoreOps, CredentialStoreOps}
use hermes_core.MidHermesLl.User.Laws.{IsLocal, local_user_load_c-Gives}
use hermes_core.MidHermesLl.Block.{Block}

module _ {R K I D C : Type 0} where
  -- The user of an instance has a private key and can be copied.
  pub mid_hermes_create_with_services-IsLocal :
      (id key : Option Bytes) (ks : Option (KeyStoreOps K I)) (ds : Option (DataStoreOps D))
      (cs : Option (CredentialStoreOps C))
      → Gives {W = World R K D C}
          (λ mh. IsLocal mh.user)
          (mid_hermes_create_with_services id key ks ds cs)
  unfolding mid_hermes_create_with_services
  mid_hermes_create_with_services-IsLocal id key ks ds cs = bind-Gives (guard-Gives _) λ _ _.
      bind-Gives (guard-Gives _)
        λ _ _. bind-Gives (local_user_load_c-Gives cs id key) λ user l. pure-Gives _ l
