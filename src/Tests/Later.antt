-- ===== src/Tests/Later.antt =====
-- What runs of src/mid_hermes leave after those of Worlds.antt.
use hermes_core.Prelude.{◌≡◌, refl, some}
use hermes_core.Common.Status.{hm_success}
use hermes_core.Common.Memory.{memcmp}
use hermes_core.KeyStore.{same_id}
use hermes_core.MidHermes.{
  rtoken_granted, wtoken_granted, token_denied, mid_hermes_create_block, mid_hermes_read_block,
  mid_hermes_update_block, mid_hermes_grant_read_access, mid_hermes_grant_update_access,
  mid_hermes_deny_read_access,
}
use hermes_core.MidHermes.Access.{hermes_of}
use hermes_core.MidHermesLl.Block.{
  block_update, init_read, init_mac, block_rtoken_for, block_wtoken_for, block_create_empty, sealed,
  mac_of, block_create, block_init, init_new, encrypted_new,
}
use hermes_core.MidHermesLl.Block.Stored.{
  block_load, token_load, rtoken_save, wtoken_save, block_save,
}
use hermes_core.MidHermesLl.Run.{
  lift, done, pure, tested, followed, or_null, guard, succeeded, ◌>>=◌,
}
use hermes_core.MidHermesLl.Stores.{on_rng, on_keys, on_blocks, on_credentials}
use hermes_core.MidHermesLl.Token.{
  token_save, token_del, token_get_token_for_user, token_create, token_generate, token_get_data,
}
use hermes_core.MidHermesLl.User.{
  user_load, user_load_c, user_copy, user_create, user_create_c, buffer_is_empty,
}
use hermes_core.MidHermesLl.Utils.{
  hm_encrypt, hm_decrypt, hm_mac_create, hm_asym_encrypt, hm_asym_decrypt,
}
use hermes_core.Tests.Toy.{services, alice, bob, themis}
use hermes_core.Tests.Worlds.{ToyWorld, block_id, new_bytes, new_meta, granted_world}

-- The world after Alice has updated the block that Bob can read.
abbrev pub updated_world : ToyWorld
updated_world =
    (mid_hermes_update_block themis (hermes_of services alice) (some block_id) (some new_bytes)
      (some new_meta) granted_world).1

pub updated_world_ran :
    mid_hermes_update_block themis
      (hermes_of services alice)
      (some block_id)
      (some new_bytes)
      (some new_meta)
      granted_world
    ≡ (done hm_success, updated_world)
unfolding mid_hermes_create_block user_copy user_create user_create_c buffer_is_empty block_create
    block_init init_new encrypted_new block_create_empty sealed mac_of token_create token_generate
    token_get_data rtoken_save wtoken_save block_save hm_encrypt hm_decrypt hm_mac_create
    hm_asym_encrypt hm_asym_decrypt lift pure tested followed or_null guard succeeded ◌>>=◌ on_rng
    on_keys on_blocks on_credentials same_id memcmp user_load user_load_c block_load token_load
    init_read init_mac block_rtoken_for block_wtoken_for token_get_token_for_user token_save
    token_del rtoken_granted wtoken_granted token_denied block_update mid_hermes_update_block
    mid_hermes_grant_read_access mid_hermes_grant_update_access mid_hermes_deny_read_access
    mid_hermes_read_block
updated_world_ran = refl

-- The world after she has granted him update access.
abbrev pub writable_world : ToyWorld
writable_world =
    (mid_hermes_grant_update_access themis (hermes_of services alice) (some block_id) (some bob.id)
      granted_world).1

pub writable_world_ran :
    mid_hermes_grant_update_access themis
      (hermes_of services alice)
      (some block_id)
      (some bob.id)
      granted_world
    ≡ (done hm_success, writable_world)
unfolding mid_hermes_create_block user_copy user_create user_create_c buffer_is_empty block_create
    block_init init_new encrypted_new block_create_empty sealed mac_of token_create token_generate
    token_get_data rtoken_save wtoken_save block_save hm_encrypt hm_decrypt hm_mac_create
    hm_asym_encrypt hm_asym_decrypt lift pure tested followed or_null guard succeeded ◌>>=◌ on_rng
    on_keys on_blocks on_credentials same_id memcmp user_load user_load_c block_load token_load
    init_read init_mac block_rtoken_for block_wtoken_for token_get_token_for_user token_save
    token_del rtoken_granted wtoken_granted token_denied block_update mid_hermes_update_block
    mid_hermes_grant_read_access mid_hermes_grant_update_access mid_hermes_deny_read_access
    mid_hermes_read_block
writable_world_ran = refl

-- The world after she has denied him read access.
abbrev pub denied_world : ToyWorld
denied_world =
    (mid_hermes_deny_read_access themis (hermes_of services alice) (some block_id) (some bob.id)
      granted_world).1

pub denied_world_ran :
    mid_hermes_deny_read_access themis
      (hermes_of services alice)
      (some block_id)
      (some bob.id)
      granted_world
    ≡ (done hm_success, denied_world)
unfolding mid_hermes_create_block user_copy user_create user_create_c buffer_is_empty block_create
    block_init init_new encrypted_new block_create_empty sealed mac_of token_create token_generate
    token_get_data rtoken_save wtoken_save block_save hm_encrypt hm_decrypt hm_mac_create
    hm_asym_encrypt hm_asym_decrypt lift pure tested followed or_null guard succeeded ◌>>=◌ on_rng
    on_keys on_blocks on_credentials same_id memcmp user_load user_load_c block_load token_load
    init_read init_mac block_rtoken_for block_wtoken_for token_get_token_for_user token_save
    token_del rtoken_granted wtoken_granted token_denied block_update mid_hermes_update_block
    mid_hermes_grant_read_access mid_hermes_grant_update_access mid_hermes_deny_read_access
    mid_hermes_read_block
denied_world_ran = refl
