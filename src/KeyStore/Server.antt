-- ===== src/KeyStore/Server.antt =====
-- src/key_store/server.c: the server of the key store, as a table of its stubs. The calls of
-- `malloc` and `calloc` are taken to succeed, as the `assert`s behind them do.
use hermes_core.Prelude.{
  ◌<◌, ◌≡◌, refl, true, Option, none, some, List, [], ◌∷◌, length, arith, if◌then◌else◌, ◌==◌,
}
use hermes_core.Common.Bytes.{Bytes, u32_mod}
use hermes_core.Common.HashTable
use hermes_core.Common.HashTable.{Table, hash, hash_loop}
use hermes_core.Common.HashTable.Laws.{view, IsTable}
use hermes_core.KeyStore.{Db, check_backend}
use hermes_core.KeyStore.Names.{
  set_rtoken_name, set_wtoken_name, get_rtoken_name, get_wtoken_name, del_rtoken_name,
  del_wtoken_name, get_indexed_rights_name,
}
use hermes_core.KeyStore.Stubs.{
  set_rtoken_stub, set_wtoken_stub, get_rtoken_stub, get_wtoken_stub, del_rtoken_stub,
  del_wtoken_stub, get_indexed_rights_stub,
}
use hermes_core.Rpc.Calling.Remote.{Knows}
use hermes_core.Rpc.Server.{Func, reg_funcs}
use hermes_core.Rpc.Server.Register.{are_names, is_text, is_text-IsText, reg_funcs-create}

module _ {D : Type 0} (db : Db D) where
  unfoldable pub stubs : List (Bytes × Func D)
  stubs =
      (set_rtoken_name, set_rtoken_stub db)
      ∷ (set_wtoken_name, set_wtoken_stub db)
      ∷ (get_rtoken_name, get_rtoken_stub db)
      ∷ (get_wtoken_name, get_wtoken_stub db)
      ∷ (del_rtoken_name, del_rtoken_stub db)
      ∷ (del_wtoken_name, del_wtoken_stub db)
      ∷ (get_indexed_rights_name, get_indexed_rights_stub db)
      ∷ []

  -- The table of the server, or NULL.
  unfoldable pub server_create : Option (Option (Table (Func D)))
  server_create = if check_backend db == 0 then some none else reg_funcs stubs HashTable.create

  known :
      {t : Table (Func D)}
      → IsTable t
      → (name : Bytes) (f : Func D) → is_text name ≡ true
      → length name < u32_mod
      → view t name ≡ some f
      → Knows t name f
  known valid name f text short h = record {
    valid = valid;
    text = is_text-IsText name text;
    short = short;
    known = h;
  }

  stubs_names : are_names stubs ≡ true
  unfolding hash hash_loop stubs set_rtoken_name set_wtoken_name get_rtoken_name get_wtoken_name
      del_rtoken_name del_wtoken_name get_indexed_rights_name
  stubs_names = refl

  -- If every function of the database is there, a server is created, and it has each stub under the
  -- name that the proxy calls.
  pub key_server_complete :
      check_backend db ≡ 1
      → (t : Table (Func D)) × (server_create ≡ some (some t))
        × Knows t set_rtoken_name (set_rtoken_stub db)
        × Knows t set_wtoken_name (set_wtoken_stub db)
        × Knows t get_rtoken_name (get_rtoken_stub db)
        × Knows t get_wtoken_name (get_wtoken_stub db)
        × Knows t del_rtoken_name (del_rtoken_stub db)
        × Knows t del_wtoken_name (del_wtoken_stub db)
        × Knows t get_indexed_rights_name (get_indexed_rights_stub db)
  unfolding server_create stubs set_rtoken_name set_wtoken_name get_rtoken_name get_wtoken_name
      del_rtoken_name del_wtoken_name get_indexed_rights_name
  key_server_complete full =
      let (t, runs, valid, all) = reg_funcs-create stubs stubs_names in
      (
        t,
        rw full runs,
        known valid set_rtoken_name (set_rtoken_stub db) refl (omega arith) all.0,
        known valid set_wtoken_name (set_wtoken_stub db) refl (omega arith) all.1.0,
        known valid get_rtoken_name (get_rtoken_stub db) refl (omega arith) all.1.1.0,
        known valid get_wtoken_name (get_wtoken_stub db) refl (omega arith) all.1.1.1.0,
        known valid del_rtoken_name (del_rtoken_stub db) refl (omega arith) all.1.1.1.1.0,
        known valid del_wtoken_name (del_wtoken_stub db) refl (omega arith) all.1.1.1.1.1.0,
        known valid get_indexed_rights_name (get_indexed_rights_stub db) refl (omega arith)
            all.1.1.1.1.1.1.0,
      )
