-- ===== src/MidHermes/Sharing.antt =====
-- Who can read and update a block after access was granted (mid_hermes_grant_read_access and
-- mid_hermes_grant_update_access of src/mid_hermes/mid_hermes.c).
use hermes_core.Prelude.{
  inl, inr, Bool-cases, ◌≡◌, ◌∙◌, refl, ap, false, ◌&&◌, some, is_empty, arith,
}
use hermes_core.Common.Bytes.{Bytes, is_given}
use hermes_core.Common.Status.{hm_success, hm_fail}
use hermes_core.MidHermes.{
  mid_hermes_grant_read_access, mid_hermes_grant_update_access, mid_hermes_read_block, read_granted,
  update_granted, rtoken_granted, wtoken_granted,
}
use hermes_core.MidHermes.Access.{
  Services, Promises, Account, hermes_of, IsMember, Holds, CanRead, CanUpdate, with_key, Writing,
}
use hermes_core.MidHermes.Granting.{Granted, rtoken_granted_views, wtoken_granted_views}
use hermes_core.MidHermes.Loading.{
  block_load_found, block_load_with, token_get_data_of, moved_holds,
}
use hermes_core.MidHermes.Others.{moved_member, moved-Writing, moved_opens, loaded_then}
use hermes_core.MidHermes.ReadBack.{mid_hermes_read_block-CanRead}
use hermes_core.MidHermesLl.Run.{reported_status-success, done, pure_last}
use hermes_core.MidHermesLl.Stores.{World}
use hermes_core.MidHermesLl.Stores.Laws.{Tokens, token_at, token_at_self}

module _ {R H K I D C : Type 0} {s : Services R H K I D C} (p : Promises s) where
  -- The token that was granted is one that its user holds.
  granted-Holds :
      {view other : K → Tokens} (a b : Account) (block key : Bytes) (w w' : World R K D C)
      → Granted p view other a b block key w w'
      → IsMember p w.cs a
      → Holds p (view w'.ks) w'.cs b block key
  granted-Holds {view} a b block key w w' g m = record {
    token = g.token;
    owner = a.id;
    owner_pk = a.pk;
    stored =
        ap (λ (t : Tokens). t block b.id) g.new_tokens ∙ token_at_self (view w.ks) block b.id _;
    owner_full = m.id_full;
    owner_pk_full = m.pk_full;
    owner_known = rw g.same_keys m.known;
    opens = g.opens;
  }

  read_granted_views :
      (a b : Account) (block bytes meta : Bytes) (w : World R K D C) {x : Unit {0}}
      {w' : World R K D C} (r : CanRead p w a block bytes meta)
      → IsMember p w.cs a
      → IsMember p w.cs b
      → read_granted s.th (hermes_of s a) (some block) (some b.id) w ≡ (done x, w')
      → Granted p p.reads p.writes a b block r.key w w'
  read_granted_views a b block bytes meta w r m m' h =
      let (wtoken, mac, w₁, ran, same) = block_load_found p w a m block bytes meta r in
      let (c, keys, h1) =
        loaded_then p (rtoken_granted s.th (hermes_of s a)) a b block w w₁ _ m m' ran same h in
      let g =
        rtoken_granted_views p a b _ _ block r.key _ (record w₁ { cs = c }) refl refl
          (moved_member p keys m) (moved_member p keys m')
          (token_get_data_of p _ a (p.reads w.ks) w.cs block r.key r.reading) h1 in
      record {
        token = g.token;
        new_tokens =
            g.new_tokens ∙ ap (λ t. token_at t block b.id (some (g.token, a.id))) same.same_reads;
        same_others = g.same_others ∙ same.same_writes;
        same_blocks = g.same_blocks ∙ same.same_blocks;
        same_keys = g.same_keys ∙ keys;
        opens = g.opens;
      }

  -- After read access was granted, the other user can read what the granting user can.
  pub mid_hermes_grant_read_access-CanRead :
      (a b : Account) (block bytes meta : Bytes) (w w' : World R K D C)
      → IsMember p w.cs a
      → IsMember p w.cs b
      → CanRead p w a block bytes meta
      → Writing p w b block bytes meta
      → mid_hermes_grant_read_access s.th (hermes_of s a) (some block) (some b.id) w
        ≡ (done hm_success, w')
      → IsMember p w'.cs b × CanRead p w' b block bytes meta
  unfolding mid_hermes_grant_read_access
  mid_hermes_grant_read_access-CanRead a b block bytes meta w w' m m' r writing h =
      elim (Bool-cases (is_given (some block) && is_given (some b.id))) [
        | inr e ↦ let (same, state) = pure_last (rw e at h) in absurd (ground (arith, same))
        | inl e ↦
            let (x, ran) =
              reported_status-success (read_granted s.th (hermes_of s a) (some block) (some b.id))
                hm_fail w refl (rw e at h) in
            let g = read_granted_views a b block bytes meta w r m m' ran in
            (
              moved_member p g.same_keys m',
              record {
                key = r.key;
                reading = granted-Holds a b block r.key w w' g m;
                stored = moved_opens p g.same_blocks r.stored;
                writing = moved-Writing p g.same_others g.same_keys writing;
              },
            )
      ]

  -- Who was granted read access to a block reads it: if `mid_hermes_grant_read_access` of a user who
  -- can read the block answers HM_SUCCESS, then `mid_hermes_read_block` of the other user answers
  -- HM_SUCCESS with the same bytes and meta. Both users' keys are pairs of which the public ones are
  -- registered, the other user has no write token or one that works, and Themis and the stores keep
  -- their promises.
  pub mid_hermes_read_block-mid_hermes_grant_read_access :
      (a b : Account) (block bytes meta : Bytes) (w w' : World R K D C)
      → IsMember p w.cs a
      → IsMember p w.cs b
      → is_empty block ≡ false
      → CanRead p w a block bytes meta
      → Writing p w b block bytes meta
      → mid_hermes_grant_read_access s.th (hermes_of s a) (some block) (some b.id) w
        ≡ (done hm_success, w')
      → (w'' : World R K D C) × (mid_hermes_read_block s.th (hermes_of s b) (some block) w'
          ≡ (done (hm_success, some (some bytes, some meta)), w''))
  mid_hermes_read_block-mid_hermes_grant_read_access a b block bytes meta w w' m m' full r writing
        h =
      let (still, can) =
        mid_hermes_grant_read_access-CanRead a b block bytes meta w w' m m' r writing h in
      let (w'', ran, same) = mid_hermes_read_block-CanRead p b block bytes meta w' still full can in
      (w'', ran)

  update_granted_views :
      (a b : Account) (block bytes meta : Bytes) (w : World R K D C) {x : Unit {0}}
      {w' : World R K D C} (u : CanUpdate p w a block bytes meta)
      → IsMember p w.cs a
      → IsMember p w.cs b
      → update_granted s.th (hermes_of s a) (some block) (some b.id) w ≡ (done x, w')
      → Granted p p.writes p.reads a b block u.key w w'
  update_granted_views a b block bytes meta w u m m' h =
      let (w₁, ran, same) =
        block_load_with p w a m block bytes meta u.reads u.key u.mac u.holding u.made in
      let (c, keys, h1) =
        loaded_then p (wtoken_granted s.th (hermes_of s a)) a b block w w₁ _ m m' ran same h in
      let g =
        wtoken_granted_views p a b _ _ block u.key _ (record w₁ { cs = c }) refl refl
          (moved_member p keys m) (moved_member p keys m')
          (token_get_data_of p _ a (p.writes w.ks) w.cs block u.key u.holding) h1 in
      record {
        token = g.token;
        new_tokens =
            g.new_tokens ∙ ap (λ t. token_at t block b.id (some (g.token, a.id))) same.same_writes;
        same_others = g.same_others ∙ same.same_reads;
        same_blocks = g.same_blocks ∙ same.same_blocks;
        same_keys = g.same_keys ∙ keys;
        opens = g.opens;
      }

  -- Who can read a block can update it too after update access was granted: if
  -- `mid_hermes_grant_update_access` of a user who can update the block answers HM_SUCCESS, then the
  -- other user, who could read it, can read and update it, and stays registered. Both users' keys are pairs of which the
  -- public ones are registered, and Themis and the stores keep their promises.
  pub mid_hermes_grant_update_access-CanUpdate :
      (a b : Account) (block bytes meta : Bytes) (w w' : World R K D C)
      → IsMember p w.cs a
      → IsMember p w.cs b
      → CanUpdate p w a block bytes meta
      → CanRead p w b block bytes meta
      → mid_hermes_grant_update_access s.th (hermes_of s a) (some block) (some b.id) w
        ≡ (done hm_success, w')
      → IsMember p w'.cs b × CanUpdate p w' b block bytes meta
  unfolding mid_hermes_grant_update_access
  mid_hermes_grant_update_access-CanUpdate a b block bytes meta w w' m m' u r h =
      elim (Bool-cases (is_given (some block) && is_given (some b.id))) [
        | inr e ↦ let (same, state) = pure_last (rw e at h) in absurd (ground (arith, same))
        | inl e ↦
            let (x, ran) =
              reported_status-success (update_granted s.th (hermes_of s a) (some block) (some b.id))
                hm_fail w refl (rw e at h) in
            let g = update_granted_views a b block bytes meta w u m m' ran in
            let holding = granted-Holds a b block u.key w w' g m in
            (
              moved_member p g.same_keys m',
              record {
                reads = record {
                  key = r.key;
                  reading = moved_holds p g.same_others g.same_keys r.reading;
                  stored = moved_opens p g.same_blocks r.stored;
                  writing = with_key u.key u.mac holding u.made;
                };
                key = u.key;
                mac = u.mac;
                holding = holding;
                made = u.made;
              },
            )
      ]
