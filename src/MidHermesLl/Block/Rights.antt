-- ===== src/MidHermesLl/Block/Rights.antt =====
-- The functions of src/mid_hermes_ll/mid_hermes_ll_block.c on the rights of a block's users. A rights
-- list is the list of its nodes, in the order that its iterator visits them.
pub mod Safety
use hermes_core.Prelude.{
  ℕ, zero, suc, Bool, false, ◌&&◌, Option, none, some, List, [], ◌∷◌, ◌++◌, if◌then◌else◌, ◌==◌,
}
use hermes_core.Common.Status.{hm_success}
use hermes_core.MidHermesLl.Block.{Block, kept_mac, sealed, mac_of}
use hermes_core.MidHermesLl.Run.{
  Run, or_null, ◌>>=◌, ◌>>◌, pure, out_of_fuel, tested, followed, guard,
}
use hermes_core.MidHermesLl.Stores.{World, KeyStoreOps, CredentialStoreOps, on_keys}
use hermes_core.MidHermesLl.Token.{
  Token, token_generate, token_get_data, token_get_token_for_user, rtoken_load_c, wtoken_load_c,
}
use hermes_core.MidHermesLl.User.{User, Buffer, is_there, user_copy, user_is_equal, user_load_c}
use hermes_core.MidHermesLl.Utils.{Themis}

pub record RightsNode : Type 0 where
  pub user : User
  pub rtoken : Token
  pub wtoken : Option Token

abbrev pub is_user : Option User → User → Bool
is_user none v = false
is_user (some u) v = user_is_equal u v

abbrev pub pushed : Option RightsNode → List RightsNode → List RightsNode
pushed none rights = rights
pushed (some node) rights = rights ++ node ∷ []

module _ {R K I D C : Type 0} (ks : KeyStoreOps K I)
    (credential_store : Option (CredentialStoreOps C)) (block_id : Buffer) where
  -- The node of the user that the iterator stands at: none for the block's own user.
  unfoldable pub rights_node : User → I → Run (World R K D C) (Option RightsNode)
  rights_node own i = do
    let user_id = ks.iterator_get_user_id i
    user ← or_null (user_load_c credential_store user_id)
    if is_user user own then pure none else do
      rtoken ← or_null (rtoken_load_c (some ks) credential_store user_id block_id)
      wtoken ← or_null (wtoken_load_c (some ks) credential_store user_id block_id)
      u ← tested user
      t ← tested rtoken
      pure (some (record { user = u; rtoken = t; wtoken = wtoken }))

  -- The do-while loop, with fuel for its turns.
  unfoldable pub gathered : ℕ → User → I → List RightsNode → Run (World R K D C) (List RightsNode)
  gathered zero own i rights = out_of_fuel
  gathered (suc fuel) own i rights = do
    node ← rights_node own i
    step ← on_keys (ks.iterator_next i)
    let more = gathered fuel own step.1 (pushed node rights)
    if step.0 == hm_success then more else pure (pushed node rights)

module _ {R K I D C : Type 0} where
  -- That the iterator cannot be made is a failed assertion.
  unfoldable pub block_access_rights :
      ℕ
      → Block
      → Option (KeyStoreOps K I)
      → Option (CredentialStoreOps C)
      → Run (World R K D C) (List RightsNode)
  block_access_rights fuel bl key_store credential_store = do
    id ← tested bl.id
    guard (is_there bl.mac && is_there credential_store)
    ks ← tested key_store
    made ← on_keys (ks.iterator_create id)
    i ← followed made
    gathered ks credential_store id fuel bl.user i []

module _ {R H K D C : Type 0} (th : Themis R H) where
  abbrev pub copied_wtoken : Token → User → Option Token → Run (World R K D C) (Option Token)
  copied_wtoken new_wtoken user none = pure none
  copied_wtoken new_wtoken user (some old) =
      or_null (token_get_token_for_user th (some new_wtoken) (user_copy user))

  -- Each user gets the new tokens; a write token that cannot be made is left out.
  unfoldable pub rotated_rights :
      Token → Token → List RightsNode → Run (World R K D C) (List RightsNode)
  rotated_rights new_rtoken new_wtoken [] = pure []
  rotated_rights new_rtoken new_wtoken (node ∷ rights) = do
    nrt ← or_null (token_get_token_for_user th (some new_rtoken) (user_copy node.user))
    nwt ← copied_wtoken new_wtoken node.user node.wtoken
    rtoken ← tested nrt
    rest ← rotated_rights new_rtoken new_wtoken rights
    pure (record { user = node.user; rtoken = rtoken; wtoken = nwt } ∷ rest)

  unfoldable pub block_rotate :
      Block → Option (List RightsNode) → Run (World R K D C) (Block × List RightsNode)
  block_rotate bl rights = do
    nodes ← tested rights
    guard (is_there bl.rtoken && is_there bl.wtoken)
    read_made ← or_null (token_generate th (user_copy bl.user))
    write_made ← or_null (token_generate th (user_copy bl.user))
    read_key ← or_null (token_get_data th read_made)
    write_key ← or_null (token_get_data th write_made)
    new_rtoken ← tested read_made
    new_wtoken ← tested write_made
    rt ← tested read_key
    wt ← tested write_key
    bytes ← followed bl.bytes
    meta ← followed bl.meta
    new_block ← sealed th rt bytes meta
    new_mac ← mac_of th wt bytes meta
    new_rights ← rotated_rights new_rtoken new_wtoken nodes
    pure (
      record bl {
        rtoken = some new_rtoken;
        wtoken = some new_wtoken;
        block = some new_block;
        old_mac = kept_mac bl;
        mac = some new_mac;
      },
      new_rights,
    )
