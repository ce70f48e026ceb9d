-- ===== src/DataStore.antt =====
-- src/data_store/functions.c: the operations of the data store over the database that the service is
-- given (`hm_ds_db_t`), their stubs on the server and their proxies in the client.
-- The database is a parameter: its state `D` and its functions, each of which may be NULL. Pointers to
-- results are always given, and results are returned.
pub mod Names
pub mod Stubs
pub mod Proxies
pub mod Remote
pub mod RemoteOut
pub mod Server
pub mod Client
pub mod Service
use hermes_core.Prelude.{
  ℕ, Bool, true, false, not, ◌&&◌, Option, none, some, [], ◌≡◌, refl, if◌then◌else◌,
}
use hermes_core.Common.Bytes.{Bytes, is_given, contents}
use hermes_core.Rpc.Calling.Served.{guarded}
use hermes_core.Common.Status.{Status, hm_invalid_parameter}

-- `user_data` tells whether that pointer is not NULL. Arguments stand in the order of the C functions;
-- insert_block returns the new id, get_block the block and its meta.
pub record Db (D : Type 0) : Type 0 where
  pub user_data : Bool
  pub insert_block : Option (D → Bytes → Bytes → Bytes → Status × Bytes × D)
  pub insert_block_with_id : Option (D → Bytes → Bytes → Bytes → Bytes → Status × D)
  pub get_block : Option (D → Bytes → Status × Bytes × Bytes × D)
  pub update_block : Option (D → Bytes → Bytes → Bytes → Bytes → Bytes → Status × D)
  pub rem_block : Option (D → Bytes → Bytes → Status × D)

abbrev is_there : {A : Type 0} → Option A → Bool
is_there none = false
is_there (some a) = true

unfoldable pub check_backend : {D : Type 0} → Db D → ℕ
check_backend db =
    if is_there db.insert_block
      && is_there db.insert_block_with_id
      && is_there db.get_block
      && is_there db.update_block
      && is_there db.rem_block
    then 1
    else 0

module _ {D : Type 0} (db : Db D) where
  unfoldable pub create_block : Option Bytes → Option Bytes → Option Bytes → D → Status × Bytes × D
  create_block block meta mac d =
      guarded (db.user_data && (is_given block && is_given meta && is_given mac)) db.insert_block
        (hm_invalid_parameter, [], d)
        λ insert. insert d (contents block) (contents meta) (contents mac)

  unfoldable pub create_block_with_id :
      Option Bytes → Option Bytes → Option Bytes → Option Bytes → D → Status × D
  create_block_with_id id block meta mac d =
      guarded (db.user_data && (is_given block && is_given meta && is_given mac && is_given id))
        db.insert_block_with_id (hm_invalid_parameter, d)
        λ insert. insert d (contents id) (contents block) (contents meta) (contents mac)

  unfoldable pub read_block : Option Bytes → D → Status × Bytes × Bytes × D
  read_block id d =
      guarded (db.user_data && is_given id) db.get_block (hm_invalid_parameter, [], [], d)
        λ get. get d (contents id)

  unfoldable pub update_block :
      Option Bytes → Option Bytes → Option Bytes → Option Bytes → Option Bytes → D → Status × D
  update_block id block meta mac old_mac d =
      guarded
        (db.user_data
          && (is_given id && is_given block && is_given meta && is_given mac && is_given old_mac))
        db.update_block (hm_invalid_parameter, d)
        λ update.
          update d (contents id) (contents block) (contents meta) (contents mac) (contents old_mac)

  unfoldable pub delete_block : Option Bytes → Option Bytes → D → Status × D
  delete_block id old_mac d =
      guarded (db.user_data && (is_given id && is_given old_mac)) db.rem_block
        (hm_invalid_parameter, d) λ remove. remove d (contents id) (contents old_mac)
