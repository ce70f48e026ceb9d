-- ===== src/Tests/Worlds.antt =====
-- What runs of src/mid_hermes leave, over the library and the stores of Toy.antt.
use hermes_core.Prelude.{◌≡◌, ◌≢◌, refl, none, some, [], ◌∷◌, arith}
use hermes_core.Common.Bytes.{Bytes}
use hermes_core.Common.Status.{hm_success}
use hermes_core.Common.Memory.{memcmp}
use hermes_core.KeyStore.{same_id}
use hermes_core.MidHermes.{
  rtoken_granted, wtoken_granted, token_denied, mid_hermes_create_block, mid_hermes_read_block,
  mid_hermes_update_block, mid_hermes_grant_read_access, mid_hermes_grant_update_access,
  mid_hermes_deny_read_access,
}
use hermes_core.MidHermes.Access.{
  hermes_of, IsMember, CanRead, CanUpdate, Holds, Writing, without, with_key,
}
use hermes_core.MidHermesLl.Block.{
  block_update, init_read, init_mac, block_rtoken_for, block_wtoken_for, block_create_empty, sealed,
  mac_of, block_create, block_init, init_new, encrypted_new,
}
use hermes_core.MidHermesLl.Block.Stored.{
  block_load, token_load, rtoken_save, wtoken_save, block_save,
}
use hermes_core.MidHermesLl.Run.{
  lift, done, pure, tested, followed, or_null, guard, succeeded, ◌>>=◌,
}
use hermes_core.MidHermesLl.User.Laws.{IsLocal}
use hermes_core.MidHermesLl.Stores.{World, on_rng, on_keys, on_blocks, on_credentials}
use hermes_core.MidHermesLl.Token.{
  token_save, token_del, token_get_token_for_user, token_create, token_generate, token_get_data,
}
use hermes_core.MidHermesLl.User.{
  user_load, user_load_c, user_copy, user_create, user_create_c, buffer_is_empty,
}
use hermes_core.MidHermesLl.Utils.{
  hm_encrypt, hm_decrypt, hm_mac_create, hm_asym_encrypt, hm_asym_decrypt,
}
use hermes_core.Tests.Toy.{
  services, promises, alice, bob, empty_world, alice-IsMember, bob-IsMember, themis, Keys, Data,
  Credentials,
}

abbrev pub ToyWorld : Type 0
ToyWorld = World (Unit {0}) Keys Data Credentials

abbrev pub block_id : Bytes
block_id = 9 ∷ []

abbrev pub bytes : Bytes
bytes = 3 ∷ 4 ∷ []

abbrev pub meta : Bytes
meta = 5 ∷ []

-- The world after Alice has created a block.
abbrev pub created_world : ToyWorld
created_world =
    (mid_hermes_create_block themis (hermes_of services alice) none (some bytes) (some meta)
      empty_world).1

pub created_world_ran :
    mid_hermes_create_block themis
      (hermes_of services alice)
      none
      (some bytes)
      (some meta)
      empty_world
    ≡ (done (hm_success, some block_id), created_world)
unfolding mid_hermes_create_block user_copy user_create user_create_c buffer_is_empty block_create
    block_init init_new encrypted_new block_create_empty sealed mac_of token_create token_generate
    token_get_data rtoken_save wtoken_save block_save hm_encrypt hm_decrypt hm_mac_create
    hm_asym_encrypt hm_asym_decrypt lift pure tested followed or_null guard succeeded ◌>>=◌ on_rng
    on_keys on_blocks on_credentials
created_world_ran = refl

abbrev pub new_bytes : Bytes
new_bytes = 6 ∷ []

abbrev pub new_meta : Bytes
new_meta = 8 ∷ []

pub alice_is_not_bob : alice.id ≢ bob.id
alice_is_not_bob h = absurd (ground (arith, h))

pub alice-IsLocal : IsLocal (hermes_of services alice).user
unfolding user_copy user_create user_create_c buffer_is_empty
alice-IsLocal = record { key = some alice.sk; has_key = refl; has_copy = refl }

-- Alice can read and update the block.
abbrev pub alice_can : CanUpdate promises created_world alice block_id bytes meta
unfolding mid_hermes_create_block user_copy user_create user_create_c buffer_is_empty block_create
    block_init init_new encrypted_new block_create_empty sealed mac_of token_create token_generate
    token_get_data rtoken_save wtoken_save block_save hm_encrypt hm_decrypt hm_mac_create
    hm_asym_encrypt hm_asym_decrypt lift pure tested followed or_null guard succeeded ◌>>=◌ on_rng
    on_keys on_blocks on_credentials same_id memcmp user_load user_load_c block_load token_load
    init_read init_mac block_rtoken_for block_wtoken_for token_get_token_for_user token_save
    token_del rtoken_granted wtoken_granted token_denied block_update mid_hermes_update_block
    mid_hermes_grant_read_access mid_hermes_grant_update_access mid_hermes_deny_read_access
    mid_hermes_read_block
alice_can = record {
  reads = record {
    key = 7 ∷ 7 ∷ [];
    reading = record {
      token = 2 ∷ 7 ∷ 7 ∷ [];
      owner = alice.id;
      owner_pk = alice.pk;
      stored = refl;
      owner_full = refl;
      owner_pk_full = refl;
      owner_known = refl;
      opens = refl;
    };
    stored = record {
      cipher = 1 ∷ bytes;
      mac = 7 ∷ 7 ∷ 3 ∷ 4 ∷ 5 ∷ [];
      stored = refl;
      opens = refl;
    };
    writing =
        with_key (7 ∷ 7 ∷ []) (7 ∷ 7 ∷ 3 ∷ 4 ∷ 5 ∷ [])
          (record {
            token = 2 ∷ 7 ∷ 7 ∷ [];
            owner = alice.id;
            owner_pk = alice.pk;
            stored = refl;
            owner_full = refl;
            owner_pk_full = refl;
            owner_known = refl;
            opens = refl;
          })
          refl;
  };
  key = 7 ∷ 7 ∷ [];
  mac = 7 ∷ 7 ∷ 3 ∷ 4 ∷ 5 ∷ [];
  holding = record {
    token = 2 ∷ 7 ∷ 7 ∷ [];
    owner = alice.id;
    owner_pk = alice.pk;
    stored = refl;
    owner_full = refl;
    owner_pk_full = refl;
    owner_known = refl;
    opens = refl;
  };
  made = refl;
}

-- The world after she has granted Bob read access.
abbrev pub granted_world : ToyWorld
granted_world =
    (mid_hermes_grant_read_access themis (hermes_of services alice) (some block_id) (some bob.id)
      created_world).1

pub granted_world_ran :
    mid_hermes_grant_read_access themis
      (hermes_of services alice)
      (some block_id)
      (some bob.id)
      created_world
    ≡ (done hm_success, granted_world)
unfolding mid_hermes_create_block user_copy user_create user_create_c buffer_is_empty block_create
    block_init init_new encrypted_new block_create_empty sealed mac_of token_create token_generate
    token_get_data rtoken_save wtoken_save block_save hm_encrypt hm_decrypt hm_mac_create
    hm_asym_encrypt hm_asym_decrypt lift pure tested followed or_null guard succeeded ◌>>=◌ on_rng
    on_keys on_blocks on_credentials same_id memcmp user_load user_load_c block_load token_load
    init_read init_mac block_rtoken_for block_wtoken_for token_get_token_for_user token_save
    token_del rtoken_granted wtoken_granted token_denied block_update mid_hermes_update_block
    mid_hermes_grant_read_access mid_hermes_grant_update_access mid_hermes_deny_read_access
    mid_hermes_read_block
granted_world_ran = refl

pub created_alice : IsMember promises created_world.cs alice
unfolding mid_hermes_create_block user_copy user_create user_create_c buffer_is_empty block_create
    block_init init_new encrypted_new block_create_empty sealed mac_of token_create token_generate
    token_get_data rtoken_save wtoken_save block_save hm_encrypt hm_decrypt hm_mac_create
    hm_asym_encrypt hm_asym_decrypt lift pure tested followed or_null guard succeeded ◌>>=◌ on_rng
    on_keys on_blocks on_credentials same_id memcmp user_load user_load_c block_load token_load
    init_read init_mac block_rtoken_for block_wtoken_for token_get_token_for_user token_save
    token_del rtoken_granted wtoken_granted token_denied block_update mid_hermes_update_block
    mid_hermes_grant_read_access mid_hermes_grant_update_access mid_hermes_deny_read_access
    mid_hermes_read_block
created_alice = alice-IsMember

pub created_bob : IsMember promises created_world.cs bob
unfolding mid_hermes_create_block user_copy user_create user_create_c buffer_is_empty block_create
    block_init init_new encrypted_new block_create_empty sealed mac_of token_create token_generate
    token_get_data rtoken_save wtoken_save block_save hm_encrypt hm_decrypt hm_mac_create
    hm_asym_encrypt hm_asym_decrypt lift pure tested followed or_null guard succeeded ◌>>=◌ on_rng
    on_keys on_blocks on_credentials same_id memcmp user_load user_load_c block_load token_load
    init_read init_mac block_rtoken_for block_wtoken_for token_get_token_for_user token_save
    token_del rtoken_granted wtoken_granted token_denied block_update mid_hermes_update_block
    mid_hermes_grant_read_access mid_hermes_grant_update_access mid_hermes_deny_read_access
    mid_hermes_read_block
created_bob = bob-IsMember

pub granted_alice : IsMember promises granted_world.cs alice
unfolding mid_hermes_create_block user_copy user_create user_create_c buffer_is_empty block_create
    block_init init_new encrypted_new block_create_empty sealed mac_of token_create token_generate
    token_get_data rtoken_save wtoken_save block_save hm_encrypt hm_decrypt hm_mac_create
    hm_asym_encrypt hm_asym_decrypt lift pure tested followed or_null guard succeeded ◌>>=◌ on_rng
    on_keys on_blocks on_credentials same_id memcmp user_load user_load_c block_load token_load
    init_read init_mac block_rtoken_for block_wtoken_for token_get_token_for_user token_save
    token_del rtoken_granted wtoken_granted token_denied block_update mid_hermes_update_block
    mid_hermes_grant_read_access mid_hermes_grant_update_access mid_hermes_deny_read_access
    mid_hermes_read_block
granted_alice = alice-IsMember

pub granted_bob : IsMember promises granted_world.cs bob
unfolding mid_hermes_create_block user_copy user_create user_create_c buffer_is_empty block_create
    block_init init_new encrypted_new block_create_empty sealed mac_of token_create token_generate
    token_get_data rtoken_save wtoken_save block_save hm_encrypt hm_decrypt hm_mac_create
    hm_asym_encrypt hm_asym_decrypt lift pure tested followed or_null guard succeeded ◌>>=◌ on_rng
    on_keys on_blocks on_credentials same_id memcmp user_load user_load_c block_load token_load
    init_read init_mac block_rtoken_for block_wtoken_for token_get_token_for_user token_save
    token_del rtoken_granted wtoken_granted token_denied block_update mid_hermes_update_block
    mid_hermes_grant_read_access mid_hermes_grant_update_access mid_hermes_deny_read_access
    mid_hermes_read_block
granted_bob = bob-IsMember

pub bob_cannot_write : Writing promises created_world bob block_id bytes meta
unfolding mid_hermes_create_block user_copy user_create user_create_c buffer_is_empty block_create
    block_init init_new encrypted_new block_create_empty sealed mac_of token_create token_generate
    token_get_data rtoken_save wtoken_save block_save hm_encrypt hm_decrypt hm_mac_create
    hm_asym_encrypt hm_asym_decrypt lift pure tested followed or_null guard succeeded ◌>>=◌ on_rng
    on_keys on_blocks on_credentials same_id memcmp user_load user_load_c block_load token_load
    init_read init_mac block_rtoken_for block_wtoken_for token_get_token_for_user token_save
    token_del rtoken_granted wtoken_granted token_denied block_update mid_hermes_update_block
    mid_hermes_grant_read_access mid_hermes_grant_update_access mid_hermes_deny_read_access
    mid_hermes_read_block
bob_cannot_write = without refl

pub bob_has_none : promises.writes granted_world.ks block_id bob.id ≡ none
unfolding mid_hermes_create_block user_copy user_create user_create_c buffer_is_empty block_create
    block_init init_new encrypted_new block_create_empty sealed mac_of token_create token_generate
    token_get_data rtoken_save wtoken_save block_save hm_encrypt hm_decrypt hm_mac_create
    hm_asym_encrypt hm_asym_decrypt lift pure tested followed or_null guard succeeded ◌>>=◌ on_rng
    on_keys on_blocks on_credentials same_id memcmp user_load user_load_c block_load token_load
    init_read init_mac block_rtoken_for block_wtoken_for token_get_token_for_user token_save
    token_del rtoken_granted wtoken_granted token_denied block_update mid_hermes_update_block
    mid_hermes_grant_read_access mid_hermes_grant_update_access mid_hermes_deny_read_access
    mid_hermes_read_block
bob_has_none = refl

-- Bob's token for the block.
abbrev pub bob_holds :
    Holds promises (promises.reads granted_world.ks) granted_world.cs bob block_id (7 ∷ 7 ∷ [])
unfolding mid_hermes_create_block user_copy user_create user_create_c buffer_is_empty block_create
    block_init init_new encrypted_new block_create_empty sealed mac_of token_create token_generate
    token_get_data rtoken_save wtoken_save block_save hm_encrypt hm_decrypt hm_mac_create
    hm_asym_encrypt hm_asym_decrypt lift pure tested followed or_null guard succeeded ◌>>=◌ on_rng
    on_keys on_blocks on_credentials same_id memcmp user_load user_load_c block_load token_load
    init_read init_mac block_rtoken_for block_wtoken_for token_get_token_for_user token_save
    token_del rtoken_granted wtoken_granted token_denied block_update mid_hermes_update_block
    mid_hermes_grant_read_access mid_hermes_grant_update_access mid_hermes_deny_read_access
    mid_hermes_read_block
bob_holds = record {
  token = 2 ∷ 7 ∷ 7 ∷ [];
  owner = alice.id;
  owner_pk = alice.pk;
  stored = refl;
  owner_full = refl;
  owner_pk_full = refl;
  owner_known = refl;
  opens = refl;
}

abbrev pub bob_reads : CanRead promises granted_world bob block_id bytes meta
unfolding mid_hermes_create_block user_copy user_create user_create_c buffer_is_empty block_create
    block_init init_new encrypted_new block_create_empty sealed mac_of token_create token_generate
    token_get_data rtoken_save wtoken_save block_save hm_encrypt hm_decrypt hm_mac_create
    hm_asym_encrypt hm_asym_decrypt lift pure tested followed or_null guard succeeded ◌>>=◌ on_rng
    on_keys on_blocks on_credentials same_id memcmp user_load user_load_c block_load token_load
    init_read init_mac block_rtoken_for block_wtoken_for token_get_token_for_user token_save
    token_del rtoken_granted wtoken_granted token_denied block_update mid_hermes_update_block
    mid_hermes_grant_read_access mid_hermes_grant_update_access mid_hermes_deny_read_access
    mid_hermes_read_block
bob_reads = record {
  key = 7 ∷ 7 ∷ [];
  reading = bob_holds;
  stored = record { cipher = 1 ∷ bytes; mac = 7 ∷ 7 ∷ 3 ∷ 4 ∷ 5 ∷ []; stored = refl; opens = refl };
  writing = without refl;
}

-- Alice's rights are as they were.
abbrev pub alice_still_can : CanUpdate promises granted_world alice block_id bytes meta
unfolding mid_hermes_create_block user_copy user_create user_create_c buffer_is_empty block_create
    block_init init_new encrypted_new block_create_empty sealed mac_of token_create token_generate
    token_get_data rtoken_save wtoken_save block_save hm_encrypt hm_decrypt hm_mac_create
    hm_asym_encrypt hm_asym_decrypt lift pure tested followed or_null guard succeeded ◌>>=◌ on_rng
    on_keys on_blocks on_credentials same_id memcmp user_load user_load_c block_load token_load
    init_read init_mac block_rtoken_for block_wtoken_for token_get_token_for_user token_save
    token_del rtoken_granted wtoken_granted token_denied block_update mid_hermes_update_block
    mid_hermes_grant_read_access mid_hermes_grant_update_access mid_hermes_deny_read_access
    mid_hermes_read_block
alice_still_can = record {
  reads = record {
    key = 7 ∷ 7 ∷ [];
    reading = record {
      token = 2 ∷ 7 ∷ 7 ∷ [];
      owner = alice.id;
      owner_pk = alice.pk;
      stored = refl;
      owner_full = refl;
      owner_pk_full = refl;
      owner_known = refl;
      opens = refl;
    };
    stored = record {
      cipher = 1 ∷ bytes;
      mac = 7 ∷ 7 ∷ 3 ∷ 4 ∷ 5 ∷ [];
      stored = refl;
      opens = refl;
    };
    writing =
        with_key (7 ∷ 7 ∷ []) (7 ∷ 7 ∷ 3 ∷ 4 ∷ 5 ∷ [])
          (record {
            token = 2 ∷ 7 ∷ 7 ∷ [];
            owner = alice.id;
            owner_pk = alice.pk;
            stored = refl;
            owner_full = refl;
            owner_pk_full = refl;
            owner_known = refl;
            opens = refl;
          })
          refl;
  };
  key = 7 ∷ 7 ∷ [];
  mac = 7 ∷ 7 ∷ 3 ∷ 4 ∷ 5 ∷ [];
  holding = record {
    token = 2 ∷ 7 ∷ 7 ∷ [];
    owner = alice.id;
    owner_pk = alice.pk;
    stored = refl;
    owner_full = refl;
    owner_pk_full = refl;
    owner_known = refl;
    opens = refl;
  };
  made = refl;
}

pub bob_holds_it :
    Holds promises
      (promises.reads granted_world.ks)
      granted_world.cs
      bob
      block_id
      alice_still_can.reads.key
unfolding alice_still_can
bob_holds_it = bob_holds
