-- ===== src/MidHermesLl/Block/Stored.antt =====
-- The functions of src/mid_hermes_ll/mid_hermes_ll_block.c that load, save and delete a block. Each
-- store may be NULL.
pub mod Safety
use hermes_core.Prelude.{
  Bool, true, false, not, ◌&&◌, ◌||◌, Option, none, some, List, [], ◌∷◌, if◌then◌else◌,
}
use hermes_core.Common.Bytes.{Bytes}
use hermes_core.Common.Status.{Status, hm_success, hm_fail}
use hermes_core.MidHermesLl.Block.{Block, or_else, block_init}
use hermes_core.MidHermesLl.Block.Rights.{RightsNode}
use hermes_core.MidHermesLl.Run.{
  Run, or_null, ◌>>=◌, ◌>>◌, pure, tested, followed, guard, succeeded,
}
use hermes_core.MidHermesLl.Stores.{
  World, KeyStoreOps, DataStoreOps, CredentialStoreOps, on_keys, on_blocks, on_credentials,
}
use hermes_core.MidHermesLl.Token.{Token, token_create, get_token, or_fail}
use hermes_core.MidHermesLl.User.{User, Buffer, is_there, user_create, user_copy}
use hermes_core.MidHermesLl.Utils.{Themis}

module _ {R K I D C : Type 0} (key_store : Option (KeyStoreOps K I))
    (credential_store : Option (CredentialStoreOps C)) where
  unfoldable pub token_load : Option User → Option Buffer → Bool → Run (World R K D C) Token
  token_load user block_id is_update = do
    u ← tested user
    id ← tested block_id
    ks ← tested key_store
    cs ← tested credential_store
    got ← on_keys (get_token ks is_update u.id id)
    succeeded got.0
    key ← on_credentials (cs.get_public_key (some got.2))
    succeeded key.0
    owner ← tested (user_create (some (some got.2)) (some (some key.1)))
    tested (token_create (some u) (some owner) (some (some got.1)))

module _ {R H K I D C : Type 0} (th : Themis R H) where
  unfoldable pub block_load :
      Block
      → Option Buffer
      → Option (DataStoreOps D)
      → Option (KeyStoreOps K I)
      → Option (CredentialStoreOps C)
      → Run (World R K D C) Block
  block_load bl id data_store key_store credential_store = do
    i ← tested id
    ds ← tested data_store
    guard (is_there key_store && is_there credential_store)
    read_token ← or_null (token_load key_store credential_store (user_copy bl.user) (some i) false)
    write_token ← or_null (token_load key_store credential_store (user_copy bl.user) (some i) true)
    rtoken ← tested read_token
    got ← on_blocks (ds.get_block i)
    succeeded got.0
    block_init th bl bl.user (some i) (some got.1) (some got.2) (some rtoken) write_token

abbrev pub flat : Option Buffer → Buffer
flat none = none
flat (some b) = b

module _ {R K D C : Type 0} where
  -- A block without an id gets one that the store fills in.
  abbrev pub saved_data : Block → Option (DataStoreOps D) → Run (World R K D C) Block
  saved_data bl none = pure bl
  saved_data bl (some ds) = do
    block ← followed bl.block
    meta ← followed bl.meta
    mac ← followed bl.mac
    made ← on_blocks (ds.set_block (flat bl.id) block meta mac (flat bl.old_mac))
    succeeded made.0
    pure (record bl { id = some made.1; old_mac = none })

  abbrev pub removed_data :
      Buffer → Buffer → Option (DataStoreOps D) → Run (World R K D C) (Unit {0})
  removed_data id mac none = pure tt
  removed_data id mac (some ds) = do status ← on_blocks (ds.rem_block id mac); succeeded status

module _ {R K I D C : Type 0} where
  unfoldable pub rtoken_save :
      Block → Option Token → Option (KeyStoreOps K I) → Run (World R K D C) Status
  rtoken_save bl token key_store = or_fail token λ t. or_fail key_store λ ks. do
    id ← followed bl.id
    owner ← followed t.owner
    on_keys (ks.set_rtoken t.user.id id t.token owner.id)

  unfoldable pub wtoken_save :
      Block → Option Token → Option (KeyStoreOps K I) → Run (World R K D C) Status
  wtoken_save bl token key_store = or_fail token λ t. or_fail key_store λ ks. do
    id ← followed bl.id
    owner ← followed t.owner
    on_keys (ks.set_wtoken t.user.id id t.token owner.id)

  -- The owner that is named is the block's user, and the token's owner.
  unfoldable pub rtoken_delete :
      Block → Option Token → Option (KeyStoreOps K I) → Run (World R K D C) Status
  rtoken_delete bl token key_store = or_fail token λ t.
      or_fail key_store
        λ ks. do id ← followed bl.id; on_keys (ks.set_rtoken t.user.id id none bl.user.id)

  unfoldable pub wtoken_delete :
      Block → Option Token → Option (KeyStoreOps K I) → Run (World R K D C) Status
  wtoken_delete bl token key_store = or_fail token λ t. or_fail key_store λ ks. do
    id ← followed bl.id
    owner ← followed t.owner
    on_keys (ks.set_wtoken t.user.id id none owner.id)

  abbrev pub saved_tokens : Block → Option (KeyStoreOps K I) → Run (World R K D C) (Unit {0})
  saved_tokens bl none = pure tt
  saved_tokens bl (some ks) = do
    read ← rtoken_save bl bl.rtoken (some ks)
    succeeded read
    write ← wtoken_save bl bl.wtoken (some ks)
    succeeded write

  -- A node's write token is passed over where it has none.
  abbrev pub if_given :
      (Block → Option Token → Option (KeyStoreOps K I) → Run (World R K D C) Status)
      → Block
      → Option Token
      → KeyStoreOps K I
      → Run (World R K D C) (Unit {0})
  if_given f bl none ks = pure tt
  if_given f bl (some t) ks = do status ← f bl (some t) (some ks); succeeded status

  unfoldable pub saved_rights :
      Block → List RightsNode → KeyStoreOps K I → Run (World R K D C) (Unit {0})
  saved_rights bl [] ks = pure tt
  saved_rights bl (node ∷ rights) ks = do
    status ← rtoken_save bl (some node.rtoken) (some ks)
    succeeded status
    if_given wtoken_save bl node.wtoken ks
    saved_rights bl rights ks

  unfoldable pub deleted_rights :
      Block → List RightsNode → KeyStoreOps K I → Run (World R K D C) (Unit {0})
  deleted_rights bl [] ks = pure tt
  deleted_rights bl (node ∷ rights) ks = do
    status ← rtoken_delete bl (some node.rtoken) (some ks)
    succeeded status
    if_given wtoken_delete bl node.wtoken ks
    deleted_rights bl rights ks

  -- The loop runs if there are rights and a key store.
  abbrev pub each_right :
      (List RightsNode → KeyStoreOps K I → Run (World R K D C) (Unit {0}))
      → Option (List RightsNode)
      → Option (KeyStoreOps K I)
      → Run (World R K D C) (Unit {0})
  each_right f (some rights) (some ks) = f rights ks
  each_right f _ _ = pure tt

  unfoldable pub block_save :
      Block
      → Option (List RightsNode)
      → Option (DataStoreOps D)
      → Option (KeyStoreOps K I)
      → Run (World R K D C) Block
  block_save bl rights data_store key_store = do
    guard (is_there data_store || is_there key_store)
    saved ← saved_data bl data_store
    saved_tokens saved key_store
    each_right (saved_rights saved) rights key_store
    pure saved

  abbrev pub removed_token : Block → Option (KeyStoreOps K I) → Run (World R K D C) (Unit {0})
  removed_token bl none = pure tt
  removed_token bl (some ks) = do status ← rtoken_delete bl bl.rtoken (some ks); succeeded status

  unfoldable pub block_delete :
      Block
      → Option (List RightsNode)
      → Option (DataStoreOps D)
      → Option (KeyStoreOps K I)
      → Run (World R K D C) Block
  block_delete bl rights data_store key_store = do
    id ← tested bl.id
    mac ← tested bl.mac
    guard (is_there data_store || is_there key_store)
    removed_data id (flat (or_else bl.old_mac (some mac))) data_store
    removed_token bl key_store
    each_right (deleted_rights bl) rights key_store
    pure bl
