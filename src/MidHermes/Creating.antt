-- ===== src/MidHermes/Creating.antt =====
-- What creating a block (mid_hermes_ll_block_create of src/mid_hermes_ll/mid_hermes_ll_block.c) makes.
use hermes_core.Prelude.{◌≡◌, ◌∙◌, sym, refl, ap, false, Option, none, some, is_empty}
use hermes_core.Common.Bytes.{Bytes}
use hermes_core.Common.Status.{hm_success}
use hermes_core.MidHermes.Access.{Services, Promises, Account, user_of, IsMember, with_key, CanRead}
use hermes_core.MidHermes.Loading.{user_copy_of}
use hermes_core.MidHermes.Making.{own_token, token_generate_opens, sealed_opens, mac_of_made}
use hermes_core.MidHermes.Saving.{IsSaveable, Saved}
use hermes_core.MidHermesLl.Block.{
  Block, block_create_empty, encrypted_new, block_create, block_init, init_new,
}
use hermes_core.MidHermesLl.Run.{
  lift, Outcome, done, pure, followed, succeeded, ◌>>=◌, tested, bind-done, or_null-done,
  tested-done, pure_last,
}
use hermes_core.MidHermesLl.Stores.{World}
use hermes_core.MidHermesLl.Stores.Laws.{Tokens, Blocks, token_at_self, block_at_self}
use hermes_core.MidHermesLl.Token.{token_get_data}
use hermes_core.MidHermesLl.Utils.{hm_asym_decrypt, hm_decrypt, hm_mac_create}

pub same_result :
    {W A : Type 0} {a b : A} {w w' : W}
    → ◌≡◌ {A = Outcome A × W} (done a, w) (done b, w')
    → (b ≡ a) × (w' ≡ w)
same_result h = (cc (ap (λ p. p.0) h), cc (ap (λ p. p.1) h))

module _ {R K D C : Type 0} where
  -- No store has changed.
  abbrev pub OnlyRng : World R K D C → World R K D C → Type 0
  OnlyRng w w' = (w'.ks ≡ w.ks) × (w'.ds ≡ w.ds) × (w'.cs ≡ w.cs)

  pub OnlyRng-trans : (u v w : World R K D C) → OnlyRng u v → OnlyRng v w → OnlyRng u w
  OnlyRng-trans u v w h k = (k.0 ∙ h.0, k.1 ∙ h.1, k.2 ∙ h.2)

  pub OnlyRng-of_rng : (w w' : World R K D C) (r : R) → w' ≡ record w { rng = r } → OnlyRng w w'
  OnlyRng-of_rng w w' r e = (ap (λ u. u.ks) e, ap (λ u. u.ds) e, ap (λ u. u.cs) e)

  pub OnlyRng-of_eq : (w w' : World R K D C) → w' ≡ w → OnlyRng w w'
  OnlyRng-of_eq w w' e = (ap (λ u. u.ks) e, ap (λ u. u.ds) e, ap (λ u. u.cs) e)

module _ {R H K I D C : Type 0} {s : Services R H K I D C} (p : Promises s) where
  token_get_data_own :
      (w : World R K D C) (a : Account) (token key : Bytes)
      → hm_asym_decrypt s.th (some a.sk) (some a.pk) (some token) ≡ done (hm_success, some key)
      → token_get_data s.th (some (own_token a token)) w ≡ (done (some key), w)
  unfolding token_get_data ◌>>=◌ tested followed succeeded pure lift
  token_get_data_own w a token key h = rw h refl

  -- A new block, whose tokens open to the keys of its encrypted form and of its MAC.
  pub record IsMade (a : Account) (bl : Block) (bytes meta : Bytes) : Type 0 where
    pub ready : IsSaveable a bl
    pub rkey : Bytes
    pub wkey : Bytes
    pub reads :
        hm_asym_decrypt s.th (some a.sk) (some a.pk) (some ready.rtoken)
        ≡ done (hm_success, some rkey)
    pub writes :
        hm_asym_decrypt s.th (some a.sk) (some a.pk) (some ready.wtoken)
        ≡ done (hm_success, some wkey)
    pub opens :
        hm_decrypt s.th (some rkey) (some ready.cipher) (some meta) ≡ (hm_success, some bytes)
    pub made :
        hm_mac_create s.th (some wkey) (some bytes) (some meta) ≡ (hm_success, some ready.mac)
    pub same_meta : ready.meta ≡ meta
    pub own_rtoken : ready.rowner ≡ a.id
    pub own_wtoken : ready.wowner ≡ a.id

  encrypted_new-IsMade :
      (a : Account) (id : Option (Option Bytes)) (bytes meta rtoken wtoken rkey wkey : Bytes)
      (w : World R K D C) {bl : Block} {w' : World R K D C}
      → is_empty rtoken ≡ false
      → is_empty wtoken ≡ false
      → hm_asym_decrypt s.th (some a.sk) (some a.pk) (some rtoken) ≡ done (hm_success, some rkey)
      → hm_asym_decrypt s.th (some a.sk) (some a.pk) (some wtoken) ≡ done (hm_success, some wkey)
      → encrypted_new s.th
          (block_create_empty (user_of a))
          (user_of a)
          id
          (some bytes)
          (some meta)
          none
          (own_token a rtoken)
          (own_token a wtoken)
          w
        ≡ (done bl, w')
      → IsMade a bl bytes meta × (bl.id ≡ id) × OnlyRng w w'
  unfolding encrypted_new
  encrypted_new-IsMade a id bytes meta rtoken wtoken rkey wkey w {w' = w'} full_r full_w reads
        writes h =
      let (k₁, w₁, d₁, h1) = bind-done _ _ _ h in
      let (c, w₂, e, h2) = bind-done _ _ _ h1 in
      let (k₂, w₃, d₂, h3) = bind-done _ _ _ h2 in
      let (mc, w₄, f, h4) = bind-done _ _ _ h3 in
      let (same, s₅) = pure_last h4 in
      let (key₁, s₁) = same_result (sym (token_get_data_own w a rtoken rkey reads) ∙ d₁) in
      let (cipher, r, is_cipher, solid, opens, s₂) =
        sealed_opens p rkey bytes (some meta) w₁ (rw key₁ at e) in
      let (key₂, s₃) = same_result (sym (token_get_data_own w₂ a wtoken wkey writes) ∙ d₂) in
      let (mac, is_mac, made, s₄) =
        mac_of_made s.th (some wkey) (some bytes) (some meta) w₃ (rw key₂ at f) in
      (
        record {
          ready = record {
            cipher = cipher;
            meta = meta;
            mac = mac;
            rtoken = rtoken;
            rowner = a.id;
            rsk = some (some a.sk);
            rpk = some a.pk;
            wtoken = wtoken;
            wowner = a.id;
            wsk = some (some a.sk);
            wpk = some a.pk;
            has_block = ap (λ b. b.block) same ∙ ap (λ o. some o) is_cipher;
            has_meta = ap (λ b. b.meta) same;
            has_mac = ap (λ b. b.mac) same ∙ ap (λ o. some o) is_mac;
            has_rtoken = ap (λ b. b.rtoken) same;
            has_wtoken = ap (λ b. b.wtoken) same;
            rtoken_full = full_r;
            wtoken_full = full_w;
          };
          rkey = rkey;
          wkey = wkey;
          reads = reads;
          writes = writes;
          opens = opens;
          made = made;
          same_meta = refl;
          own_rtoken = refl;
          own_wtoken = refl;
        },
        ap (λ b. b.id) same,
        OnlyRng-trans w w₂ w'
            (OnlyRng-trans w w₁ w₂ (OnlyRng-of_eq w w₁ s₁) (OnlyRng-of_rng w₁ w₂ r s₂))
            (OnlyRng-of_eq w₂ w' (s₅ ∙ s₄ ∙ s₃)),
      )

  pub block_create-IsMade :
      (a : Account) (id : Option (Option Bytes)) (bytes meta : Bytes) (w : World R K D C)
      {bl : Block} {w' : World R K D C}
      → IsMember p w.cs a
      → block_create s.th (user_of a) id (some bytes) (some meta) none none w ≡ (done bl, w')
      → IsMade a bl bytes meta × (bl.id ≡ id) × OnlyRng w w'
  unfolding block_create block_init init_new
  block_create-IsMade a id bytes meta w {w' = w'} m h =
      let h0 = rw (user_copy_of a m.id_full m.pk_full) at h in
      let (r₁, w₁, g₁, h1) = bind-done _ _ _ h0 in
      let (r₂, w₂, g₂, h2) = bind-done _ _ _ h1 in
      let (rt, er, h3) = tested-done _ _ _ h2 in
      let (wt, ew, h4) = tested-done _ _ _ h3 in
      let (tok₁, key₁, rng₁, is₁, full₁, opens₁, s₁) =
        token_generate_opens p a w m (or_null-done _ _ (rw er at g₁)) in
      let (tok₂, key₂, rng₂, is₂, full₂, opens₂, s₂) =
        token_generate_opens p a w₁ (rw s₁ m) (or_null-done _ _ (rw ew at g₂)) in
      let (is_made, has_id, only) =
        encrypted_new-IsMade a id bytes meta tok₁ tok₂ key₁ key₂ w₂ full₁ full₂ opens₁ opens₂
          (rw (is₁, is₂) at h4) in
      (
        is_made,
        has_id,
        OnlyRng-trans w w₂ w'
            (OnlyRng-trans w w₁ w₂ (OnlyRng-of_rng w w₁ rng₁ s₁) (OnlyRng-of_rng w₁ w₂ rng₂ s₂))
            only,
      )

  -- After a block was made and saved, its user can read it.
  pub saved-CanRead :
      (a : Account) (bl : Block) (bytes meta : Bytes) (w₁ w' : World R K D C) (i : Bytes)
      (made : IsMade a bl bytes meta)
      → IsMember p w'.cs a
      → Saved p a bl w₁ w' i made.ready
      → CanRead p w' a i bytes meta
  saved-CanRead a bl bytes meta w₁ w' i made m saved =
      let v = made.ready in
      let reading =
        ap (λ (t : Tokens). t i a.id) saved.new_reads ∙ token_at_self (p.reads w₁.ks) i a.id _ in
      let writing =
        ap (λ (t : Tokens). t i a.id) saved.new_writes ∙ token_at_self (p.writes w₁.ks) i a.id _ in
      let block = ap (λ (t : Blocks). t i) saved.new_blocks ∙ block_at_self (p.blocks w₁.ds) i _ in
      record {
        key = made.rkey;
        reading = record {
          token = v.rtoken;
          owner = a.id;
          owner_pk = a.pk;
          stored = reading ∙ ap (λ o. some (v.rtoken, o)) made.own_rtoken;
          owner_full = m.id_full;
          owner_pk_full = m.pk_full;
          owner_known = m.known;
          opens = made.reads;
        };
        stored = record {
          cipher = v.cipher;
          mac = v.mac;
          stored = block ∙ ap (λ n. some (v.cipher, n, v.mac)) made.same_meta;
          opens = made.opens;
        };
        writing =
            with_key made.wkey v.mac
              (record {
                token = v.wtoken;
                owner = a.id;
                owner_pk = a.pk;
                stored = writing ∙ ap (λ o. some (v.wtoken, o)) made.own_wtoken;
                owner_full = m.id_full;
                owner_pk_full = m.pk_full;
                owner_known = m.known;
                opens = made.writes;
              })
              made.made;
      }
