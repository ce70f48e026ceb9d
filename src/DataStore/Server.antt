-- ===== src/DataStore/Server.antt =====
-- src/data_store/server.c: the server of the data store, as a table of its stubs. The calls of
-- `malloc` and `calloc` are taken to succeed, as the `assert`s behind them do.
use hermes_core.Prelude.{
  ◌<◌, ◌≡◌, refl, true, Option, none, some, List, [], ◌∷◌, length, arith, if◌then◌else◌, ◌==◌,
}
use hermes_core.Common.Bytes.{Bytes, u32_mod}
use hermes_core.Common.HashTable
use hermes_core.Common.HashTable.{Table, hash, hash_loop}
use hermes_core.Common.HashTable.Laws.{view, IsTable}
use hermes_core.DataStore.{Db, check_backend}
use hermes_core.DataStore.Names.{
  create_block_name, create_block_with_id_name, read_block_name, update_block_name,
  delete_block_name,
}
use hermes_core.DataStore.Stubs.{
  create_block_stub, create_block_with_id_stub, read_block_stub, update_block_stub,
  delete_block_stub,
}
use hermes_core.Rpc.Calling.Remote.{Knows}
use hermes_core.Rpc.Server.{Func, reg_funcs}
use hermes_core.Rpc.Server.Register.{are_names, is_text, is_text-IsText, reg_funcs-create}

module _ {D : Type 0} (db : Db D) where
  unfoldable pub stubs : List (Bytes × Func D)
  stubs =
      (create_block_name, create_block_stub db)
      ∷ (create_block_with_id_name, create_block_with_id_stub db)
      ∷ (read_block_name, read_block_stub db)
      ∷ (update_block_name, update_block_stub db)
      ∷ (delete_block_name, delete_block_stub db)
      ∷ []

  -- The table of the server, or NULL.
  unfoldable pub server_create : Option (Option (Table (Func D)))
  server_create = if check_backend db == 0 then some none else reg_funcs stubs HashTable.create

  known :
      {t : Table (Func D)}
      → IsTable t
      → (name : Bytes) (f : Func D) → is_text name ≡ true
      → length name < u32_mod
      → view t name ≡ some f
      → Knows t name f
  known valid name f text short h = record {
    valid = valid;
    text = is_text-IsText name text;
    short = short;
    known = h;
  }

  stubs_names : are_names stubs ≡ true
  unfolding hash hash_loop stubs create_block_name create_block_with_id_name read_block_name
      update_block_name delete_block_name
  stubs_names = refl

  -- If every function of the database is there, a server is created, and it has each stub under the
  -- name that the proxy calls.
  pub data_server_complete :
      check_backend db ≡ 1
      → (t : Table (Func D)) × (server_create ≡ some (some t))
        × Knows t create_block_name (create_block_stub db)
        × Knows t create_block_with_id_name (create_block_with_id_stub db)
        × Knows t read_block_name (read_block_stub db)
        × Knows t update_block_name (update_block_stub db)
        × Knows t delete_block_name (delete_block_stub db)
  unfolding server_create stubs create_block_name create_block_with_id_name read_block_name
      update_block_name delete_block_name
  data_server_complete full =
      let (t, runs, valid, all) = reg_funcs-create stubs stubs_names in
      (
        t,
        rw full runs,
        known valid create_block_name (create_block_stub db) refl (omega arith) all.0,
        known valid create_block_with_id_name (create_block_with_id_stub db) refl (omega arith)
            all.1.0,
        known valid read_block_name (read_block_stub db) refl (omega arith) all.1.1.0,
        known valid update_block_name (update_block_stub db) refl (omega arith) all.1.1.1.0,
        known valid delete_block_name (delete_block_stub db) refl (omega arith) all.1.1.1.1.0,
      )
