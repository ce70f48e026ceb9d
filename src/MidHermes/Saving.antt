-- ===== src/MidHermes/Saving.antt =====
-- What saving a block (mid_hermes_ll_block_save of src/mid_hermes_ll/mid_hermes_ll_block.c) leaves in
-- the stores.
use hermes_core.Prelude.{◌≡◌, ◌∙◌, ap, false, Option, none, some, is_empty}
use hermes_core.Common.Bytes.{Bytes}
use hermes_core.Common.Status.{hm_success}
use hermes_core.MidHermes.Access.{Services, Promises, Account, user_of}
use hermes_core.MidHermesLl.Block.{Block}
use hermes_core.MidHermesLl.Block.Stored.{
  block_save, saved_data, saved_tokens, rtoken_save, wtoken_save, flat,
}
use hermes_core.MidHermesLl.Run.{
  pure_last, succeeded_last, done, bind-done, guard-done, followed_here-done, succeeded-done,
  pure-done,
}
use hermes_core.MidHermesLl.Stores.{World, on_keys_last, on_blocks-done}
use hermes_core.MidHermesLl.Stores.Laws.{token_at, block_at}
use hermes_core.MidHermesLl.Token.{Token}

-- A user's token by an owner of whom the keys do not matter here.
abbrev pub token_by :
    Account → (owner : Bytes) → Option (Option Bytes) → Option Bytes → (token : Bytes) → Token
token_by a owner sk pk token = record {
  user = user_of a;
  owner = some (record { id = some owner; sk = sk; pk = pk });
  token = some token;
}

-- A block that is ready to be saved, with both its tokens.
pub record IsSaveable (a : Account) (bl : Block) : Type 0 where
  pub cipher : Bytes
  pub meta : Bytes
  pub mac : Bytes
  pub rtoken : Bytes
  pub rowner : Bytes
  pub rsk : Option (Option Bytes)
  pub rpk : Option Bytes
  pub wtoken : Bytes
  pub wowner : Bytes
  pub wsk : Option (Option Bytes)
  pub wpk : Option Bytes
  pub has_block : bl.block ≡ some (some cipher)
  pub has_meta : bl.meta ≡ some (some meta)
  pub has_mac : bl.mac ≡ some (some mac)
  pub has_rtoken : bl.rtoken ≡ some (token_by a rowner rsk rpk rtoken)
  pub has_wtoken : bl.wtoken ≡ some (token_by a wowner wsk wpk wtoken)
  pub rtoken_full : is_empty rtoken ≡ false
  pub wtoken_full : is_empty wtoken ≡ false

module _ {R H K I D C : Type 0} {s : Services R H K I D C} (p : Promises s) where
  module _ (a : Account) (owner token : Bytes) (sk : Option (Option Bytes)) (pk : Option Bytes)
      (full : is_empty token ≡ false) (bl : Block) (id : Bytes) (has_id : bl.id ≡ some (some id))
      (o : Option Token) (is_token : o ≡ some (token_by a owner sk pk token)) (w : World R K D C)
      {w' : World R K D C} where
    -- A token that was saved is the one that the key store then shows.
    rtoken_save_stored :
        rtoken_save bl o (some s.ks) w ≡ (done hm_success, w')
        → (k : K) × (w' ≡ record w { ks = k })
          × (p.reads k ≡ token_at (p.reads w.ks) id a.id (some (token, owner)))
          × (p.writes k ≡ p.writes w.ks)
    unfolding rtoken_save
    rtoken_save_stored h =
        let h1 = followed_here-done _ _ _ (rw (is_token, has_id) at h) in
        let h2 = followed_here-done _ _ _ h1 in
        let (ran, state) = on_keys_last _ _ h2 in
        let (reads, writes) = p.key_laws.sets_rtoken.stored w.ks _ id a.id token owner full ran in
        (_, state, reads, writes)

    wtoken_save_stored :
        wtoken_save bl o (some s.ks) w ≡ (done hm_success, w')
        → (k : K) × (w' ≡ record w { ks = k })
          × (p.writes k ≡ token_at (p.writes w.ks) id a.id (some (token, owner)))
          × (p.reads k ≡ p.reads w.ks)
    unfolding wtoken_save
    wtoken_save_stored h =
        let h1 = followed_here-done _ _ _ (rw (is_token, has_id) at h) in
        let h2 = followed_here-done _ _ _ h1 in
        let (ran, state) = on_keys_last _ _ h2 in
        let (writes, reads) = p.key_laws.sets_wtoken.stored w.ks _ id a.id token owner full ran in
        (_, state, writes, reads)

  -- What the stores show after a block was saved under the id `i`.
  pub record Saved (a : Account) (bl : Block) (w w' : World R K D C) (i : Bytes)
      (v : IsSaveable a bl) : Type 0 where
    pub id_full : is_empty i ≡ false
    pub same_id : (j : Bytes) → flat bl.id ≡ some j → i ≡ j
    pub new_blocks : p.blocks w'.ds ≡ block_at (p.blocks w.ds) i (some (v.cipher, v.meta, v.mac))
    pub new_reads : p.reads w'.ks ≡ token_at (p.reads w.ks) i a.id (some (v.rtoken, v.rowner))
    pub new_writes : p.writes w'.ks ≡ token_at (p.writes w.ks) i a.id (some (v.wtoken, v.wowner))
    pub same_cs : w'.cs ≡ w.cs

  module _ (a : Account) (bl : Block) (v : IsSaveable a bl) (w : World R K D C) where
    saved_data_stored :
        {bl' : Block} {w' : World R K D C}
        → saved_data bl (some s.ds) w ≡ (done bl', w')
        → (i : Bytes) × (d : D) × (bl'.id ≡ some (some i))
          × (bl'.rtoken ≡ bl.rtoken)
          × (bl'.wtoken ≡ bl.wtoken)
          × (w' ≡ record w { ds = d })
          × (p.blocks d ≡ block_at (p.blocks w.ds) i (some (v.cipher, v.meta, v.mac)))
          × (is_empty i ≡ false)
          × ((j : Bytes) → flat bl.id ≡ some j → i ≡ j)
    saved_data_stored h =
        let h1 = followed_here-done _ _ _ (rw v.has_block at h) in
        let h2 = followed_here-done _ _ _ (rw v.has_meta at h1) in
        let h3 = followed_here-done _ _ _ (rw v.has_mac at h2) in
        let h4 = on_blocks-done _ _ _ h3 in
        let (ok, h5) = succeeded-done _ _ _ h4 in
        let (same, state) = pure_last h5 in
        let r =
          s.ds.set_block (flat bl.id) (some v.cipher) (some v.meta) (some v.mac) (flat bl.old_mac)
            w.ds in
        let (i, has_id, full, blocks, kept) =
          p.data_laws.stored w.ds r.1 (flat bl.id) (flat bl.old_mac) r.0.1 v.cipher v.meta v.mac
            (ap (λ st. ((st, r.0.1), r.1)) ok) in
        (
          i,
          r.1,
          ap (λ b. b.id) same ∙ ap (λ o. some o) has_id,
          ap (λ b. b.rtoken) same,
          ap (λ b. b.wtoken) same,
          state,
          blocks,
          full,
          kept,
        )

    saved_tokens_stored :
        (bl' : Block) (i : Bytes) {w' : World R K D C} {x : Unit {0}}
        → bl'.id ≡ some (some i)
        → bl'.rtoken ≡ bl.rtoken
        → bl'.wtoken ≡ bl.wtoken
        → saved_tokens bl' (some s.ks) w ≡ (done x, w')
        → (k : K) × (w' ≡ record w { ks = k })
          × (p.reads k ≡ token_at (p.reads w.ks) i a.id (some (v.rtoken, v.rowner)))
          × (p.writes k ≡ token_at (p.writes w.ks) i a.id (some (v.wtoken, v.wowner)))
    saved_tokens_stored bl' i has_id has_r has_w h =
        let (st, w₁, ran, h1) = bind-done _ _ _ h in
        let (ok, h2) = succeeded-done _ _ _ h1 in
        let (st', w₂, ran', h3) = bind-done _ _ _ h2 in
        let (ok', last) = succeeded_last _ h3 in
        let (k, state, reads, writes) =
          rtoken_save_stored a v.rowner v.rtoken v.rsk v.rpk v.rtoken_full bl' i has_id bl'.rtoken
            (has_r ∙ v.has_rtoken) w (rw ok at ran) in
        let (k', state', writes', reads') =
          wtoken_save_stored a v.wowner v.wtoken v.wsk v.wpk v.wtoken_full bl' i has_id bl'.wtoken
            (has_w ∙ v.has_wtoken) w₁ (rw ok' at ran') in
        (
          k',
          last ∙ state' ∙ ap (λ (u : World R K D C). record u { ks = k' }) state,
          reads' ∙ ap (λ (u : World R K D C). p.reads u.ks) state ∙ reads,
          writes'
              ∙ ap
                  (λ (u : World R K D C).
                    token_at (p.writes u.ks) i a.id (some (v.wtoken, v.wowner)))
                  state
              ∙ ap (λ t. token_at t i a.id (some (v.wtoken, v.wowner))) writes,
        )

  -- A block that was saved with both stores, and without rights, is in them under its id.
  pub block_save_stored :
      (a : Account) (bl : Block) (v : IsSaveable a bl) (w : World R K D C) {bl' : Block}
      {w' : World R K D C}
      → block_save bl none (some s.ds) (some s.ks) w ≡ (done bl', w')
      → (i : Bytes) × (bl'.id ≡ some (some i)) × Saved a bl w w' i v
  unfolding block_save
  block_save_stored a bl v w h =
      let (given, h1) = guard-done _ _ _ h in
      let (saved, w₁, ran, h2) = bind-done _ _ _ h1 in
      let (x, w₂, ran', h3) = bind-done _ _ _ h2 in
      let (same, state₂) = pure_last (pure-done _ _ _ h3) in
      let (i, d, has_id, has_r, has_w, state, blocks, full, kept) =
        saved_data_stored a bl v w ran in
      let (k, state₁, reads, writes) =
        saved_tokens_stored a bl v w₁ saved i has_id has_r has_w ran' in
      (
        i,
        ap (λ b. b.id) same ∙ has_id,
        record {
          id_full = full;
          same_id = kept;
          new_blocks =
              ap (λ u. p.blocks u.ds) (state₂ ∙ state₁)
              ∙ ap (λ (u : World R K D C). p.blocks u.ds) state
              ∙ blocks;
          new_reads =
              ap (λ u. p.reads u.ks) (state₂ ∙ state₁)
              ∙ reads
              ∙ ap
                  (λ (u : World R K D C).
                    token_at (p.reads u.ks) i a.id (some (v.rtoken, v.rowner)))
                  state;
          new_writes =
              ap (λ u. p.writes u.ks) (state₂ ∙ state₁)
              ∙ writes
              ∙ ap
                  (λ (u : World R K D C).
                    token_at (p.writes u.ks) i a.id (some (v.wtoken, v.wowner)))
                  state;
          same_cs = ap (λ u. u.cs) (state₂ ∙ state₁) ∙ ap (λ (u : World R K D C). u.cs) state;
        },
      )
