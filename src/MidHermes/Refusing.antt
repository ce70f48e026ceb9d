-- ===== src/MidHermes/Refusing.antt =====
-- Updating and denying by a user without a write token, and reading after access was denied
-- (src/mid_hermes/mid_hermes.c), against the abstract state of Access.antt.
use hermes_core.Prelude.{
  inl, inr, Bool-cases, ◌≡◌, ◌∙◌, refl, ap, true, false, ◌&&◌, none, some, is_empty, arith,
}
use hermes_core.Common.Bytes.{Bytes, is_given}
use hermes_core.Common.Status.{hm_success, hm_fail}
use hermes_core.MidHermes.{
  mid_hermes_update_block, mid_hermes_read_block, mid_hermes_deny_read_access,
  mid_hermes_deny_update_access, denied, token_denied,
}
use hermes_core.MidHermes.Access.{
  Services, Promises, Account, user_of, hermes_of, IsMember, CanRead, CanUpdate, SameViews,
}
use hermes_core.MidHermes.Loading.{
  user_copy_of, block_load_with, block_load_without, token_load_missing, token_get_data_of,
}
use hermes_core.MidHermes.Others.{loaded_then, user_load_c_found, moved_member}
use hermes_core.MidHermesLl.Block.{block_update, block_create_empty, block_wtoken_for}
use hermes_core.MidHermesLl.Block.Stored.{block_load, token_load}
use hermes_core.MidHermesLl.Run.{
  guard, succeeded_last, reported_status-success, done, null, pure, or_null, ◌>>=◌, bind-done,
  tested, tested_here-done, pure_last,
}
use hermes_core.MidHermesLl.Stores.{World, on_keys-done, on_keys_last}
use hermes_core.MidHermesLl.Stores.Laws.{Tokens, token_at, token_at_self}
use hermes_core.MidHermesLl.Token.{token_del}
use hermes_core.MidHermes.Granting.{token_get_token_for_user_opens}
use hermes_core.MidHermesLl.Block.Stored.Safety.{token_load-Gives}
use hermes_core.MidHermesLl.Run.Safe.{a_value, or_null_of_ends}
use hermes_core.MidHermesLl.User.Laws.{IsLocal}

deleted_none :
    (tokens new : Tokens) (block user : Bytes)
    → new ≡ token_at tokens block user none
    → new block user ≡ none
deleted_none tokens new block user e =
    ap (λ (t : Tokens). t block user) e ∙ token_at_self tokens block user none

module _ {R H K I D C : Type 0} {s : Services R H K I D C} (p : Promises s) where
  -- Who can read a block but has no write token for it cannot update it: `mid_hermes_update_block`
  -- answers 1, and no view of a store changes, where the block's id, the new bytes and the new meta
  -- data are not empty. The user's keys are a pair of which the public one is registered, and Themis
  -- and the stores keep their promises.
  pub mid_hermes_update_block_refused :
      (a : Account) (block bytes meta new_bytes new_meta : Bytes) (w : World R K D C)
      → IsMember p w.cs a
      → is_empty block ≡ false
      → is_empty new_bytes ≡ false
      → is_empty new_meta ≡ false
      → CanRead p w a block bytes meta
      → p.writes w.ks block a.id ≡ none
      → (w' : World R K D C) × (mid_hermes_update_block s.th
            (hermes_of s a)
            (some block)
            (some new_bytes)
            (some new_meta)
            w
          ≡ (done 1, w'))
        × SameViews p w w'
  unfolding mid_hermes_update_block block_update or_null ◌>>=◌ pure tested
  mid_hermes_update_block_refused a block bytes meta new_bytes new_meta w m full full' full'' r
        lacks =
      let (w', ran, same) = block_load_without p w a m block bytes meta r lacks in
      (w', rw (full, full', full'', user_copy_of a m.id_full m.pk_full, ran) refl, same)

  -- Who can read a block but has no write token for it cannot deny access to it:
  -- `mid_hermes_deny_read_access` and `mid_hermes_deny_update_access` answer HM_FAIL, and no view of a
  -- store changes, where the block's id is not empty. Both users' keys are pairs of which the public
  -- ones are registered, and Themis and the stores keep their promises.
  pub mid_hermes_deny_access_refused :
      (a b : Account) (block bytes meta : Bytes) (w : World R K D C)
      → IsMember p w.cs a
      → IsMember p w.cs b
      → is_empty block ≡ false
      → CanRead p w a block bytes meta
      → p.writes w.ks block a.id ≡ none
      → (w' : World R K D C) × (mid_hermes_deny_read_access s.th
            (hermes_of s a)
            (some block)
            (some b.id)
            w
          ≡ (done hm_fail, w'))
        × (mid_hermes_deny_update_access s.th (hermes_of s a) (some block) (some b.id) w
            ≡ (done hm_fail, w'))
        × SameViews p w w'
  unfolding mid_hermes_deny_read_access mid_hermes_deny_update_access token_denied block_wtoken_for
      or_null ◌>>=◌ pure tested
  mid_hermes_deny_access_refused a b block bytes meta w m m' full r lacks =
      let (w₁, ran, same) = block_load_without p w a m block bytes meta r lacks in
      let (c, got, keys) = user_load_c_found p w₁ b (moved_member p same.same_keys m') in
      let copy = user_copy_of a m.id_full m.pk_full in
      (
        record w₁ { cs = c },
        rw (full, m'.id_full, copy, ran, got) refl,
        rw (full, m'.id_full, copy, ran, got) refl,
        record {
          same_reads = same.same_reads;
          same_writes = same.same_writes;
          same_blocks = same.same_blocks;
          same_keys = keys ∙ same.same_keys;
        },
      )

module _ {R H K I D C : Type 0} {s : Services R H K I D C} (p : Promises s) where
  -- Loading a block without a read token ends with NULL.
  block_load_refused :
      (a : Account) (block : Bytes) (w : World R K D C)
      → IsMember p w.cs a
      → p.reads w.ks block a.id ≡ none
      → (w' : World R K D C) × (block_load s.th
            (block_create_empty (user_of a))
            (some (some block))
            (some s.ds)
            (some s.ks)
            (some s.cs)
            w
          ≡ (null, w'))
  unfolding block_load ◌>>=◌ tested guard or_null block_create_empty
  block_load_refused a block w m lacks =
      let copy = user_copy_of a m.id_full m.pk_full in
      let (k, missing, reads, writes) =
        token_load_missing p w a block false p.key_laws.finds_rtoken lacks in
      let w₁ : World R K D C = record w { ks = k } in
      let local : IsLocal (user_of a) = record {
        key = some a.sk;
        has_key = refl;
        has_copy = copy;
      } in
      let (t, ends) = or_null_of_ends (
        (token_load-Gives (some s.ks) (some s.cs) (some (user_of a)) (some (some block)) true
            (a_value _ local)).ends
          w₁) in
      let second =
        token_load {R = R} {D = D} (some s.ks) (some s.cs) (some (user_of a)) (some (some block))
          true w₁ in
      (second.1, rw (copy, missing, ends) refl)

  -- A user who has no read token for a block cannot read it: `mid_hermes_read_block` answers HM_FAIL,
  -- and no data, where the block's id is not empty. The user's keys are a pair of which the public one is registered, and Themis and the
  -- stores keep their promises.
  pub mid_hermes_read_block_refused :
      (a : Account) (block : Bytes) (w : World R K D C)
      → IsMember p w.cs a
      → is_empty block ≡ false
      → p.reads w.ks block a.id ≡ none
      → (w' : World R K D C) × (mid_hermes_read_block s.th (hermes_of s a) (some block) w
          ≡ (done (hm_fail, none), w'))
  unfolding mid_hermes_read_block ◌>>=◌ tested or_null pure
  mid_hermes_read_block_refused a block w m full lacks =
      let (w', ran) = block_load_refused a block w m lacks in
      (w', rw (full, user_copy_of a m.id_full m.pk_full, ran) refl)

  -- What a denial that succeeded has left: no token of the kind that was denied.
  denied_left :
      (a b : Account) (block bytes meta : Bytes) (w : World R K D C) {x : Unit {0}}
      {w' : World R K D C} (u : CanUpdate p w a block bytes meta)
      → IsMember p w.cs a
      → IsMember p w.cs b
      → denied s.th (hermes_of s a) false (some block) (some b.id) w ≡ (done x, w')
      → (p.reads w'.ks block b.id ≡ none) × (p.keys w'.cs ≡ p.keys w.cs)
  unfolding token_denied block_wtoken_for token_del
  denied_left a b block bytes meta w u m m' h =
      let (w₁, ran, same) =
        block_load_with p w a m block bytes meta u.reads u.key u.mac u.holding u.made in
      let (c, keys, h1) =
        loaded_then p (token_denied s.th (hermes_of s a) false) a b block w w₁ _ m m' ran same h in
      let (t, w₂, made, h2) = bind-done _ _ _ h1 in
      let (st, w₃, deleted, h3) = bind-done _ _ _ h2 in
      let (ok, last) = succeeded_last _ h3 in
      let (token, r, is_t, solid, opens, state) =
        token_get_token_for_user_opens p a b _ _ u.key _ (moved_member p keys m)
          (moved_member p keys m')
          (token_get_data_of p _ a (p.writes w.ks) w.cs block u.key u.holding)
          (tested_here-done _ _ _ (tested_here-done _ _ _ made)) in
      let (ran', state') = on_keys_last _ _ (on_keys-done _ _ _ (rw ok at deleted)) in
      let (views, others) = p.key_laws.sets_rtoken.deleted _ _ block b.id a.id ran' in
      (
        ap (λ v. p.reads v.ks block b.id) (last ∙ state') ∙ deleted_none _ _ block b.id views,
        ap (λ v. p.keys v.cs) (last ∙ state')
            ∙ ap (λ (v : World R K D C). p.keys v.cs) state
            ∙ keys,
      )

  -- Who was denied read access cannot read: if `mid_hermes_deny_read_access` of a user who can update
  -- the block answers HM_SUCCESS, then `mid_hermes_read_block` of the other user answers HM_FAIL, and
  -- no data. Both users' keys are pairs of which the public ones are registered, and Themis and the
  -- stores keep their promises.
  pub mid_hermes_read_block-mid_hermes_deny_read_access :
      (a b : Account) (block bytes meta : Bytes) (w w' : World R K D C)
      → IsMember p w.cs a
      → IsMember p w.cs b
      → CanUpdate p w a block bytes meta
      → mid_hermes_deny_read_access s.th (hermes_of s a) (some block) (some b.id) w
        ≡ (done hm_success, w')
      → (w'' : World R K D C) × (mid_hermes_read_block s.th (hermes_of s b) (some block) w'
          ≡ (done (hm_fail, none), w''))
  unfolding mid_hermes_deny_read_access
  mid_hermes_read_block-mid_hermes_deny_read_access a b block bytes meta w w' m m' u h =
      elim (Bool-cases (is_given (some block) && is_given (some b.id))) [
        | inr e ↦ let (same, state) = pure_last (rw e at h) in absurd (ground (arith, same))
        | inl e ↦
            let (x, ran) =
              reported_status-success (denied s.th (hermes_of s a) false (some block) (some b.id))
                hm_fail w refl (rw e at h) in
            let (lacks, keys) = denied_left a b block bytes meta w u m m' ran in
            mid_hermes_read_block_refused b block w' (moved_member p keys m') (ground (arith, e))
              lacks
      ]
