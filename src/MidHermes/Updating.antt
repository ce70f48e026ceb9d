-- ===== src/MidHermes/Updating.antt =====
-- Updating a block (mid_hermes_update_block of src/mid_hermes/mid_hermes.c) against the abstract state
-- of Access.antt.
use hermes_core.Prelude.{
  inl, inr, Bool-cases, ◌≡◌, ◌≢◌, ◌∙◌, sym, refl, ap, false, ◌&&◌, Option, none, some, is_empty,
  arith,
}
use hermes_core.Common.Bytes.{Bytes, is_given}
use hermes_core.Common.Status.{Status, hm_success}
use hermes_core.MidHermes.{mid_hermes_update_block, mid_hermes_read_block, updated}
use hermes_core.MidHermes.Access.{
  Services, Promises, Account, hermes_of, IsMember, Holds, Opens, CanRead, CanUpdate, without,
  with_key,
}
use hermes_core.MidHermes.Loading.{user_copy_of, block_load_with}
use hermes_core.MidHermes.Others.{loaded_run, moved_member}
use hermes_core.MidHermes.ReadBack.{mid_hermes_read_block-CanRead}
use hermes_core.MidHermes.Saving.{Saved, block_save_stored}
use hermes_core.MidHermesLl.Block.{Block}
use hermes_core.MidHermesLl.Block.Stored.{flat}
use hermes_core.MidHermesLl.Run.{
  reported_status-success, Run, Outcome, done, bind_run, bind-done, pure_last,
}
use hermes_core.MidHermesLl.Stores.{World}
use hermes_core.MidHermesLl.Stores.Laws.{
  Tokens, Blocks, token_at_self, token_at_other, block_at_self,
}
use hermes_core.MidHermesLl.Token.{or_fail}
use hermes_core.MidHermes.Resealing.{IsResealed, block_update-IsResealed}

or_fail_known :
    {W A : Type 0} (o : Option A) (f : A → Run W Status) {w : W} {a : A} {x : Outcome Status × W}
    → o ≡ some a
    → or_fail o f w ≡ x
    → f a w ≡ x
or_fail_known o f e h = rw e at h

module _ {R H K I D C : Type 0} {s : Services R H K I D C} (p : Promises s) where
  module _ (a : Account) (bl : Block) (block bytes meta rkey wkey : Bytes) (reads writes : Tokens)
      (c : C) (hr : Holds p reads c a block rkey) (hw : Holds p writes c a block wkey)
      (new : IsResealed p a bl block bytes meta rkey wkey hr.token hr.owner hw.token hw.owner)
      (w₁ w' : World R K D C) (saved : Saved p a bl w₁ w' block new.ready)
      (keys : p.keys w'.cs ≡ p.keys c) where
    resealed-Opens : Opens p w'.ds block rkey bytes meta
    resealed-Opens = record {
      cipher = new.ready.cipher;
      mac = new.ready.mac;
      stored =
          ap (λ (t : Blocks). t block) saved.new_blocks
          ∙ block_at_self (p.blocks w₁.ds) block _
          ∙ ap (λ n. some (new.ready.cipher, n, new.ready.mac)) new.same_meta;
      opens = new.opens;
    }

    resealed-CanUpdate : CanUpdate p w' a block bytes meta
    resealed-CanUpdate =
        let reading =
          ap (λ (t : Tokens). t block a.id) saved.new_reads
          ∙ token_at_self (p.reads w₁.ks) block a.id _ in
        let writing =
          ap (λ (t : Tokens). t block a.id) saved.new_writes
          ∙ token_at_self (p.writes w₁.ks) block a.id _ in
        let holding : Holds p (p.writes w'.ks) w'.cs a block wkey = record {
          token = hw.token;
          owner = hw.owner;
          owner_pk = hw.owner_pk;
          stored = rw (new.same_wtoken, new.same_wowner) at writing;
          owner_full = hw.owner_full;
          owner_pk_full = hw.owner_pk_full;
          owner_known = rw keys hw.owner_known;
          opens = hw.opens;
        } in
        record {
          reads = record {
            key = rkey;
            reading = record {
              token = hr.token;
              owner = hr.owner;
              owner_pk = hr.owner_pk;
              stored = rw (new.same_rtoken, new.same_rowner) at reading;
              owner_full = hr.owner_full;
              owner_pk_full = hr.owner_pk_full;
              owner_known = rw keys hr.owner_known;
              opens = hr.opens;
            };
            stored = resealed-Opens;
            writing = with_key wkey new.ready.mac holding new.made;
          };
          key = wkey;
          mac = new.ready.mac;
          holding = holding;
          made = new.made;
        }

  -- What an update that succeeded has left.
  record Updated (a : Account) (block bytes meta new_bytes new_meta : Bytes) (w w' : World R K D C)
      (u : CanUpdate p w a block bytes meta) : Type 0 where
    can : CanUpdate p w' a block new_bytes new_meta
    opens : Opens p w'.ds block u.reads.key new_bytes new_meta
    same_keys : p.keys w'.cs ≡ p.keys w.cs
    reads_of : (b : Account) → a.id ≢ b.id → p.reads w'.ks block b.id ≡ p.reads w.ks block b.id
    writes_of : (b : Account) → a.id ≢ b.id → p.writes w'.ks block b.id ≡ p.writes w.ks block b.id

  updated_left :
      (a : Account) (block bytes meta new_bytes new_meta : Bytes) (w : World R K D C) {bl : Block}
      {w' : World R K D C} (u : CanUpdate p w a block bytes meta)
      → IsMember p w.cs a
      → updated s.th (hermes_of s a) (some block) (some new_bytes) (some new_meta) w ≡ (done bl, w')
      → Updated a block bytes meta new_bytes new_meta w w' u
  updated_left a block bytes meta new_bytes new_meta w {w' = w'} u m h =
      let (w₁, ran, same) =
        block_load_with p w a m block bytes meta u.reads u.key u.mac u.holding u.made in
      let h0 = sym (bind_run _ _ w (loaded_run p a block w m ran)) ∙ h in
      let (new, w₂, d, h1) = bind-done _ _ _ h0 in
      let (sealed, only) =
        block_update-IsResealed p a block _ bytes meta _ new_bytes new_meta u.reads.key u.key
          (p.reads w.ks) (p.writes w.ks) w.cs u.reads.reading u.holding w₁ d in
      let (i, has_id, saved) = block_save_stored p a new sealed.ready w₂ h1 in
      let is_block : i ≡ block = saved.same_id block (ap flat sealed.has_id) in
      let keys : p.keys w'.cs ≡ p.keys w.cs = ap p.keys (saved.same_cs ∙ only.2) ∙ same.same_keys in
      let here : Saved p a new w₂ w' block sealed.ready = rw is_block at saved in
      record {
        can =
            resealed-CanUpdate a new block new_bytes new_meta u.reads.key u.key (p.reads w.ks)
              (p.writes w.ks) w.cs u.reads.reading u.holding sealed w₂ w' here keys;
        opens =
            resealed-Opens a new block new_bytes new_meta u.reads.key u.key (p.reads w.ks)
              (p.writes w.ks) w.cs u.reads.reading u.holding sealed w₂ w' here keys;
        same_keys = keys;
        reads_of = λ b ne.
            ap (λ (t : Tokens). t block b.id) here.new_reads
            ∙ token_at_other (p.reads w₂.ks) block a.id b.id block _ ne
            ∙ ap (λ k. p.reads k block b.id) only.0
            ∙ ap (λ (t : Tokens). t block b.id) same.same_reads;
        writes_of = λ b ne.
            ap (λ (t : Tokens). t block b.id) here.new_writes
            ∙ token_at_other (p.writes w₂.ks) block a.id b.id block _ ne
            ∙ ap (λ k. p.writes k block b.id) only.0
            ∙ ap (λ (t : Tokens). t block b.id) same.same_writes;
      }

  update_block_left :
      (a : Account) (block bytes meta new_bytes new_meta : Bytes) (w w' : World R K D C)
      (u : CanUpdate p w a block bytes meta)
      → IsMember p w.cs a
      → mid_hermes_update_block s.th (hermes_of s a) (some block) (some new_bytes) (some new_meta) w
        ≡ (done hm_success, w')
      → (is_empty block ≡ false) × Updated a block bytes meta new_bytes new_meta w w' u
  unfolding mid_hermes_update_block
  update_block_left a block bytes meta new_bytes new_meta w w' u m h =
      elim (Bool-cases
        (is_given (some block) && is_given (some new_bytes) && is_given (some new_meta))) [
          | inr e ↦ let (same, state) = pure_last (rw e at h) in absurd (ground (arith, same))
          | inl e ↦
              let (bl, ran) =
                reported_status-success
                  (updated s.th (hermes_of s a) (some block) (some new_bytes) (some new_meta)) 1 w
                  refl (or_fail_known _ _ (user_copy_of a m.id_full m.pk_full) (rw e at h)) in
              (ground (arith, e), updated_left a block bytes meta new_bytes new_meta w u m ran)
        ]

  -- An update is read back by who made it: if `mid_hermes_update_block` of a user who can update the
  -- block answers HM_SUCCESS, then `mid_hermes_read_block` answers HM_SUCCESS with the new bytes and
  -- meta, and the user can still read and update the block. The user's keys are a pair of which the public one is registered, and Themis and
  -- the stores keep their promises.
  pub mid_hermes_read_block-mid_hermes_update_block :
      (a : Account) (block bytes meta new_bytes new_meta : Bytes) (w w' : World R K D C)
      → IsMember p w.cs a
      → CanUpdate p w a block bytes meta
      → mid_hermes_update_block s.th (hermes_of s a) (some block) (some new_bytes) (some new_meta) w
        ≡ (done hm_success, w')
      → CanUpdate p w' a block new_bytes new_meta
        × ((w'' : World R K D C) × (mid_hermes_read_block s.th (hermes_of s a) (some block) w'
              ≡ (done (hm_success, some (some new_bytes, some new_meta)), w'')))
  mid_hermes_read_block-mid_hermes_update_block a block bytes meta new_bytes new_meta w w' m u h =
      let (full, left) = update_block_left a block bytes meta new_bytes new_meta w w' u m h in
      let (w'', ran, same) =
        mid_hermes_read_block-CanRead p a block new_bytes new_meta w'
          (moved_member p left.same_keys m) full left.can.reads in
      (left.can, (w'', ran))

  -- An update is seen by the other readers: where the read tokens of two users, whose ids differ, open
  -- to one key, the first can update the block and the second has no write token, the second reads the
  -- new bytes and meta after `mid_hermes_update_block` of the first has answered HM_SUCCESS. The keys of
  -- both are pairs of which the public ones are registered, and Themis and the stores keep their
  -- promises.
  pub mid_hermes_update_block_others :
      (a b : Account) (block bytes meta new_bytes new_meta : Bytes) (w w' : World R K D C)
      (u : CanUpdate p w a block bytes meta)
      → IsMember p w.cs a
      → IsMember p w.cs b
      → a.id ≢ b.id
      → Holds p (p.reads w.ks) w.cs b block u.reads.key
      → p.writes w.ks block b.id ≡ none
      → mid_hermes_update_block s.th (hermes_of s a) (some block) (some new_bytes) (some new_meta) w
        ≡ (done hm_success, w')
      → (w'' : World R K D C) × (mid_hermes_read_block s.th (hermes_of s b) (some block) w'
          ≡ (done (hm_success, some (some new_bytes, some new_meta)), w''))
  mid_hermes_update_block_others a b block bytes meta new_bytes new_meta w w' u m m' ne holds lacks
        h =
      let (full, left) = update_block_left a block bytes meta new_bytes new_meta w w' u m h in
      let can : CanRead p w' b block new_bytes new_meta = record {
        key = u.reads.key;
        reading = record {
          token = holds.token;
          owner = holds.owner;
          owner_pk = holds.owner_pk;
          stored = left.reads_of b ne ∙ holds.stored;
          owner_full = holds.owner_full;
          owner_pk_full = holds.owner_pk_full;
          owner_known = rw left.same_keys holds.owner_known;
          opens = holds.opens;
        };
        stored = left.opens;
        writing = without (left.writes_of b ne ∙ lacks);
      } in
      let (w'', ran, same) =
        mid_hermes_read_block-CanRead p b block new_bytes new_meta w'
          (moved_member p left.same_keys m') full can in
      (w'', ran)
