-- ===== src/MidHermes.antt =====
-- src/mid_hermes/mid_hermes.c: the operations on blocks that an application calls. Each is a function
-- of the blocks of src/mid_hermes_ll, over the stores that the instance was made with.
-- An operation returns its status, and its results beside it. That memory is freed is not modelled,
-- but that a user is freed twice.
pub mod KeyStoreImpl
pub mod DataStoreImpl
pub mod CredentialStoreImpl
pub mod Access
pub mod Loading
pub mod Making
pub mod Saving
pub mod Creating
pub mod ReadBack
pub mod Others
pub mod Granting
pub mod Sharing
pub mod Resealing
pub mod Updating
pub mod Refusing
pub mod Safety
use hermes_core.Prelude.{
  ℕ, Bool, true, false, not, ◌&&◌, ◌||◌, Option, none, some, List, [], ◌∷◌, if◌then◌else◌, ◌==◌,
}
use hermes_core.Common.Bytes.{Bytes, is_given, contents}
use hermes_core.Common.Status.{Status, hm_success, hm_fail, hm_invalid_parameter}
use hermes_core.MidHermes.CredentialStoreImpl.{hermes_credential_store_create}
use hermes_core.MidHermes.DataStoreImpl.{hermes_data_store_create}
use hermes_core.MidHermes.KeyStoreImpl.{Iterator, hermes_key_store_create}
use hermes_core.MidHermesLl.Block.{
  Block, or_else, block_create_empty, block_create, block_update, block_rtoken_for,
  block_wtoken_for,
}
use hermes_core.MidHermesLl.Block.Rights.{block_access_rights, block_rotate}
use hermes_core.MidHermesLl.Block.Stored.{flat, block_load, block_save, block_delete}
use hermes_core.MidHermesLl.Run.{
  Run, status_of, or_null, ◌>>=◌, ◌>>◌, pure, tested, followed, guard, succeeded,
}
use hermes_core.MidHermesLl.Stores.{World, KeyStoreOps, DataStoreOps, CredentialStoreOps}
use hermes_core.MidHermesLl.Token.{or_fail, token_save, token_del}
use hermes_core.MidHermesLl.User.{User, is_there, user_copy, user_load_c, local_user_load_c}
use hermes_core.MidHermesLl.Utils.{Themis}
use hermes_core.Rpc.Transport.{Transport}

pub record MidHermes (K I D C : Type 0) : Type 0 where
  pub ks : Option (KeyStoreOps K I)
  pub cs : Option (CredentialStoreOps C)
  pub ds : Option (DataStoreOps D)
  pub user : User

module _ {R K D C : Type 0} where
  unfoldable pub mid_hermes_create :
      Option Bytes
      → Option Bytes
      → Option (Transport K)
      → Option (Transport D)
      → Option (Transport C)
      → Run (World R K D C) (MidHermes K Iterator D C)
  mid_hermes_create user_id private_key key_transport data_transport credential_transport = do
    guard (is_given user_id && is_given private_key)
    guard (is_there key_transport && is_there data_transport && is_there credential_transport)
    cs ← tested (hermes_credential_store_create credential_transport)
    ks ← tested (hermes_key_store_create key_transport)
    ds ← tested (hermes_data_store_create data_transport)
    user ← local_user_load_c (some cs) user_id private_key
    pure (record { ks = some ks; cs = some cs; ds = some ds; user = user })

module _ {R K I D C : Type 0} where
  unfoldable pub mid_hermes_create_with_services :
      Option Bytes
      → Option Bytes
      → Option (KeyStoreOps K I)
      → Option (DataStoreOps D)
      → Option (CredentialStoreOps C)
      → Run (World R K D C) (MidHermes K I D C)
  mid_hermes_create_with_services user_id private_key key_store data_store credential_store = do
    guard (is_given user_id && is_given private_key)
    guard (is_there key_store || is_there data_store || is_there credential_store)
    user ← local_user_load_c credential_store user_id private_key
    pure (record { ks = key_store; cs = credential_store; ds = data_store; user = user })

-- What an operation stores through its pointers: nothing unless it succeeded.
abbrev pub outcome : {A : Type 0} → Option A → Status × Option A
outcome none = (hm_fail, none)
outcome (some a) = (hm_success, some a)

abbrev pub id_buffer : Option Bytes → Option (Option Bytes)
id_buffer none = none
id_buffer (some bs) = some (some bs)

-- The id is the caller's, or that which the store gave the block.
abbrev pub id_after : Option Bytes → Option Block → Option Bytes
id_after id none = id
id_after id (some bl) = or_else id (flat bl.id)

abbrev pub read_of : Option Block → Option (Option Bytes × Option Bytes)
read_of none = none
read_of (some bl) = some (flat bl.bytes, flat bl.meta)

module _ {R H K I D C : Type 0} (th : Themis R H) (mh : MidHermes K I D C) where
  -- `mid_hermes_ll_block_create_empty` for a copy of the user, and `load`.
  abbrev pub loaded : Option Bytes → Run (World R K D C) Block
  loaded block_id = do
    user ← tested (user_copy mh.user)
    block_load th (block_create_empty user) (some block_id) mh.ds mh.ks mh.cs

  -- Where the block could not be made, its user has been freed with it and is freed again: a crash.
  abbrev pub created : Option Bytes → Option Bytes → Option Bytes → Run (World R K D C) Block
  created id block meta = do
    user ← tested (user_copy mh.user)
    made ← or_null (block_create th user (id_buffer id) block meta none none)
    bl ← followed made
    block_save bl none mh.ds mh.ks

  unfoldable pub mid_hermes_create_block :
      Option Bytes → Option Bytes → Option Bytes → Run (World R K D C) (Status × Option Bytes)
  mid_hermes_create_block id block meta =
      if not (is_given block && is_given meta)
      then pure (hm_invalid_parameter, id)
      else do bl ← or_null (created id block meta); pure (status_of hm_fail bl, id_after id bl)

  unfoldable pub mid_hermes_read_block :
      Option Bytes → Run (World R K D C) (Status × Option (Option Bytes × Option Bytes))
  mid_hermes_read_block block_id =
      if not (is_given block_id)
      then pure (hm_invalid_parameter, none)
      else do bl ← or_null (loaded block_id); pure (outcome (read_of bl))

  -- A failure to load, to update or to save answers 1.
  abbrev pub updated : Option Bytes → Option Bytes → Option Bytes → Run (World R K D C) Block
  updated block_id block meta = do
    bl ← loaded block_id
    new ← block_update th bl (some block) (some meta)
    block_save new none mh.ds mh.ks

  -- That the user cannot be copied answers HM_FAIL.
  unfoldable pub mid_hermes_update_block :
      Option Bytes → Option Bytes → Option Bytes → Run (World R K D C) Status
  mid_hermes_update_block block_id block meta =
      if not (is_given block_id && is_given block && is_given meta)
      then pure hm_invalid_parameter
      else or_fail (user_copy mh.user)
          λ user. do bl ← or_null (updated block_id block meta); pure (status_of 1 bl)

  abbrev pub deleted : ℕ → Block → Run (World R K D C) Block
  deleted fuel bl = do
    rights ← or_null (block_access_rights fuel bl mh.ks mh.cs)
    block_delete bl rights mh.ds mh.ks

  abbrev pub deletion : ℕ → Option Block → Run (World R K D C) Status
  deletion fuel none = pure 1
  deletion fuel (some bl) = do done ← or_null (deleted fuel bl); pure (status_of hm_fail done)

  -- The rights may be missing. `fuel` bounds the users of the block.
  unfoldable pub mid_hermes_delete_block : ℕ → Option Bytes → Run (World R K D C) Status
  mid_hermes_delete_block fuel block_id =
      if not (is_given block_id)
      then pure hm_invalid_parameter
      else or_fail (user_copy mh.user) λ user. do bl ← or_null (loaded block_id); deletion fuel bl

  abbrev pub rotated : ℕ → Option Bytes → Run (World R K D C) Block
  rotated fuel block_id = do
    bl ← loaded block_id
    rights ← block_access_rights fuel bl mh.ks mh.cs
    new ← block_rotate th bl (some rights)
    block_save new.0 (some new.1) mh.ds mh.ks

  unfoldable pub mid_hermes_rotate_block : ℕ → Option Bytes → Run (World R K D C) Status
  mid_hermes_rotate_block fuel block_id =
      if not (is_given block_id)
      then pure hm_invalid_parameter
      else do bl ← or_null (rotated fuel block_id); pure (status_of hm_fail bl)

  unfoldable pub rtoken_granted : Block → User → Run (World R K D C) (Unit {0})
  rtoken_granted bl for_user = do
    read_token ← block_rtoken_for th bl (some for_user)
    status ← token_save mh.ks bl.id (some read_token) false
    succeeded status

  abbrev pub read_granted : Option Bytes → Option Bytes → Run (World R K D C) (Unit {0})
  read_granted block_id for_user_id = do
    bl ← loaded block_id
    for_user ← user_load_c mh.cs for_user_id
    rtoken_granted bl for_user

  unfoldable pub mid_hermes_grant_read_access :
      Option Bytes → Option Bytes → Run (World R K D C) Status
  mid_hermes_grant_read_access block_id for_user_id =
      if not (is_given block_id && is_given for_user_id)
      then pure hm_invalid_parameter
      else do done ← or_null (read_granted block_id for_user_id); pure (status_of hm_fail done)

  unfoldable pub wtoken_granted : Block → User → Run (World R K D C) (Unit {0})
  wtoken_granted bl for_user = do
    write_token ← block_wtoken_for th bl (some for_user)
    status ← token_save mh.ks bl.id (some write_token) true
    succeeded status

  abbrev pub update_granted : Option Bytes → Option Bytes → Run (World R K D C) (Unit {0})
  update_granted block_id for_user_id = do
    bl ← loaded block_id
    for_user ← user_load_c mh.cs for_user_id
    wtoken_granted bl for_user

  unfoldable pub mid_hermes_grant_update_access :
      Option Bytes → Option Bytes → Run (World R K D C) Status
  mid_hermes_grant_update_access block_id for_user_id =
      if not (is_given block_id && is_given for_user_id)
      then pure hm_invalid_parameter
      else do done ← or_null (update_granted block_id for_user_id); pure (status_of hm_fail done)

  -- Whoever denies access must have a write token; the token that is made from it is dropped.
  unfoldable pub token_denied : Bool → Block → User → Run (World R K D C) (Unit {0})
  token_denied is_update bl for_user = do
    wtoken ← block_wtoken_for th bl (some for_user)
    status ← token_del mh.ks (some for_user) bl.user bl.id is_update
    succeeded status

  abbrev pub denied : Bool → Option Bytes → Option Bytes → Run (World R K D C) (Unit {0})
  denied is_update block_id for_user_id = do
    bl ← loaded block_id
    for_user ← user_load_c mh.cs for_user_id
    token_denied is_update bl for_user

  unfoldable pub mid_hermes_deny_read_access :
      Option Bytes → Option Bytes → Run (World R K D C) Status
  mid_hermes_deny_read_access block_id for_user_id =
      if not (is_given block_id && is_given for_user_id)
      then pure hm_invalid_parameter
      else do done ← or_null (denied false block_id for_user_id); pure (status_of hm_fail done)

  unfoldable pub mid_hermes_deny_update_access :
      Option Bytes → Option Bytes → Run (World R K D C) Status
  mid_hermes_deny_update_access block_id for_user_id =
      if not (is_given block_id && is_given for_user_id)
      then pure hm_invalid_parameter
      else do done ← or_null (denied true block_id for_user_id); pure (status_of hm_fail done)
