-- ===== src/CredentialStore/Server.antt =====
-- src/credential_store/server.c: the server of the credential store, as a table of its stubs. The calls of
-- `malloc` and `calloc` are taken to succeed, as the `assert`s behind them do.
use hermes_core.Prelude.{
  ◌≡◌, refl, true, Option, none, some, List, [], ◌∷◌, arith, if◌then◌else◌, ◌==◌,
}
use hermes_core.Common.Bytes.{Bytes}
use hermes_core.Common.HashTable
use hermes_core.Common.HashTable.{Table, hash, hash_loop}
use hermes_core.CredentialStore.{Db, check_backend, get_pub_key_by_id_name, get_pub_key_by_id_stub}
use hermes_core.Rpc.Calling.Remote.{Knows}
use hermes_core.Rpc.Server.{Func, reg_funcs}
use hermes_core.Rpc.Server.Register.{are_names, is_text-IsText, reg_funcs-create}

module _ {D : Type 0} (db : Db D) where
  unfoldable pub stubs : List (Bytes × Func D)
  stubs = (get_pub_key_by_id_name, get_pub_key_by_id_stub db) ∷ []

  -- The table of the server, or NULL.
  unfoldable pub server_create : Option (Option (Table (Func D)))
  server_create = if check_backend db == 0 then some none else reg_funcs stubs HashTable.create

  stubs_names : are_names stubs ≡ true
  unfolding hash hash_loop stubs get_pub_key_by_id_name
  stubs_names = refl

  -- If the database's function is there, a server is created, and it has the stub under the name that
  -- the proxy calls.
  pub credential_server_complete :
      check_backend db ≡ 1
      → (t : Table (Func D)) × (server_create ≡ some (some t))
        × Knows t get_pub_key_by_id_name (get_pub_key_by_id_stub db)
  unfolding server_create stubs get_pub_key_by_id_name
  credential_server_complete full =
      let (t, runs, valid, all) = reg_funcs-create stubs stubs_names in
      (
        t,
        rw full runs,
        record {
          valid = valid;
          text = is_text-IsText get_pub_key_by_id_name refl;
          short = omega arith;
          known = all.0;
        },
      )
