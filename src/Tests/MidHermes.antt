-- ===== src/Tests/MidHermes.antt =====
-- Runs of src/mid_hermes over the library and the stores of Toy.antt.
use hermes_core.Prelude.{◌≡◌, refl, none, some}
use hermes_core.Common.Status.{hm_success, hm_fail}
use hermes_core.MidHermes.{
  mid_hermes_read_block, mid_hermes_update_block, mid_hermes_deny_read_access,
  mid_hermes_deny_update_access,
}
use hermes_core.MidHermes.Access.{hermes_of, IsMember, CanUpdate, SameViews}
use hermes_core.MidHermes.ReadBack.{mid_hermes_read_block-mid_hermes_create_block}
use hermes_core.MidHermes.Refusing.{
  mid_hermes_update_block_refused, mid_hermes_deny_access_refused,
  mid_hermes_read_block-mid_hermes_deny_read_access,
}
use hermes_core.MidHermes.Sharing.{
  mid_hermes_read_block-mid_hermes_grant_read_access, mid_hermes_grant_update_access-CanUpdate,
}
use hermes_core.MidHermes.Updating.{
  mid_hermes_read_block-mid_hermes_update_block, mid_hermes_update_block_others,
}
use hermes_core.MidHermesLl.Run.{done}
use hermes_core.Tests.Toy.{services, promises, alice, bob, empty_world, alice-IsMember, themis}
use hermes_core.Tests.Worlds.{
  ToyWorld, block_id, bytes, meta, created_world, created_world_ran, new_bytes, new_meta,
  alice_is_not_bob, alice_can, granted_world, granted_world_ran, created_alice, created_bob,
  granted_alice, granted_bob, bob_cannot_write, bob_has_none, bob_reads, alice_still_can,
  bob_holds_it,
}
use hermes_core.Tests.Later.{
  updated_world, updated_world_ran, writable_world, writable_world_ran, denied_world,
  denied_world_ran,
}

mid_hermes_read_block-mid_hermes_create_block_example :
    (w'' : ToyWorld) × (mid_hermes_read_block themis
        (hermes_of services alice)
        (some block_id)
        created_world
      ≡ (done (hm_success, some (some bytes, some meta)), w''))
mid_hermes_read_block-mid_hermes_create_block_example =
    mid_hermes_read_block-mid_hermes_create_block promises alice none bytes meta empty_world
      (some block_id) created_world alice-IsMember created_world_ran

mid_hermes_read_block-mid_hermes_grant_read_access_example :
    (w'' : ToyWorld) × (mid_hermes_read_block themis
        (hermes_of services bob)
        (some block_id)
        granted_world
      ≡ (done (hm_success, some (some bytes, some meta)), w''))
mid_hermes_read_block-mid_hermes_grant_read_access_example =
    mid_hermes_read_block-mid_hermes_grant_read_access promises alice bob block_id bytes meta
      created_world granted_world created_alice created_bob refl alice_can.reads bob_cannot_write
      granted_world_ran

mid_hermes_update_block_refused_example :
    (w' : ToyWorld) × (mid_hermes_update_block themis
        (hermes_of services bob)
        (some block_id)
        (some new_bytes)
        (some new_meta)
        granted_world
      ≡ (done 1, w'))
    × SameViews promises granted_world w'
mid_hermes_update_block_refused_example =
    mid_hermes_update_block_refused promises bob block_id bytes meta new_bytes new_meta
      granted_world granted_bob refl refl refl bob_reads bob_has_none

mid_hermes_deny_access_refused_example :
    (w' : ToyWorld) × (mid_hermes_deny_read_access themis
        (hermes_of services bob)
        (some block_id)
        (some alice.id)
        granted_world
      ≡ (done hm_fail, w'))
    × (mid_hermes_deny_update_access themis
          (hermes_of services bob)
          (some block_id)
          (some alice.id)
          granted_world
        ≡ (done hm_fail, w'))
    × SameViews promises granted_world w'
mid_hermes_deny_access_refused_example =
    mid_hermes_deny_access_refused promises bob alice block_id bytes meta granted_world granted_bob
      granted_alice refl bob_reads bob_has_none

mid_hermes_read_block-mid_hermes_update_block_example :
    CanUpdate promises updated_world alice block_id new_bytes new_meta
    × ((w'' : ToyWorld) × (mid_hermes_read_block themis
            (hermes_of services alice)
            (some block_id)
            updated_world
          ≡ (done (hm_success, some (some new_bytes, some new_meta)), w'')))
mid_hermes_read_block-mid_hermes_update_block_example =
    mid_hermes_read_block-mid_hermes_update_block promises alice block_id bytes meta new_bytes
      new_meta granted_world updated_world granted_alice alice_still_can updated_world_ran

mid_hermes_update_block_others_example :
    (w'' : ToyWorld) × (mid_hermes_read_block themis
        (hermes_of services bob)
        (some block_id)
        updated_world
      ≡ (done (hm_success, some (some new_bytes, some new_meta)), w''))
mid_hermes_update_block_others_example =
    mid_hermes_update_block_others promises alice bob block_id bytes meta new_bytes new_meta
      granted_world updated_world alice_still_can granted_alice granted_bob alice_is_not_bob
      bob_holds_it bob_has_none updated_world_ran

mid_hermes_grant_update_access-CanUpdate_example :
    IsMember promises writable_world.cs bob
    × CanUpdate promises writable_world bob block_id bytes meta
mid_hermes_grant_update_access-CanUpdate_example =
    mid_hermes_grant_update_access-CanUpdate promises alice bob block_id bytes meta granted_world
      writable_world granted_alice granted_bob alice_still_can bob_reads writable_world_ran

mid_hermes_read_block-mid_hermes_deny_read_access_example :
    (w'' : ToyWorld) × (mid_hermes_read_block themis
        (hermes_of services bob)
        (some block_id)
        denied_world
      ≡ (done (hm_fail, none), w''))
mid_hermes_read_block-mid_hermes_deny_read_access_example =
    mid_hermes_read_block-mid_hermes_deny_read_access promises alice bob block_id bytes meta
      granted_world denied_world granted_alice granted_bob alice_still_can denied_world_ran
