-- ===== src/MidHermes/Granting.antt =====
-- Granting access (mid_hermes_grant_read_access and mid_hermes_grant_update_access of
-- src/mid_hermes/mid_hermes.c) against the abstract state of Access.antt.
use hermes_core.Prelude.{◌≡◌, ◌∙◌, sym, ap, Bool, true, false, Option, some, is_empty}
use hermes_core.Common.Bytes.{Bytes}
use hermes_core.Common.Status.{hm_success}
use hermes_core.MidHermes.{rtoken_granted, wtoken_granted}
use hermes_core.MidHermes.Access.{Services, Promises, Account, user_of, hermes_of, IsMember}
use hermes_core.MidHermes.Creating.{same_result}
use hermes_core.MidHermes.Loading.{user_copy_of}
use hermes_core.MidHermes.Making.{ungrouped}
use hermes_core.MidHermes.Others.{loaded_user}
use hermes_core.MidHermesLl.Block.{Block, block_rtoken_for, block_wtoken_for}
use hermes_core.MidHermesLl.Run.{
  done, bind-done, tested_here-done, followed_here-done, succeeded-done, succeeded_last,
  tested_last,
}
use hermes_core.MidHermesLl.Stores.{World, on_rng-done, on_keys_last}
use hermes_core.MidHermesLl.Stores.Laws.{Tokens, SetsToken, token_at}
use hermes_core.MidHermesLl.Token.{
  Token, set_token, token_create, token_get_data, token_get_token_for_user, token_save,
}
use hermes_core.MidHermesLl.User.{User}
use hermes_core.MidHermesLl.Utils.{hm_asym_decrypt}
use hermes_core.MidHermesLl.Utils.Laws.{hm_asym_encrypt_stored}

abbrev pub granted_token : (a b : Account) → Bytes → Token
granted_token a b token = record {
  user = loaded_user b;
  owner = some (user_of a);
  token = some token;
}

rng_moved :
    {R K D C : Type 0} {u v w : World R K D C} {r : R}
    → v ≡ u
    → w ≡ record v { rng = r }
    → w ≡ record u { rng = r }
rng_moved {r = r} e f = f ∙ ap (λ (x : World _ _ _ _). record x { rng = r }) e

module _ {R H K I D C : Type 0} {s : Services R H K I D C} (p : Promises s) where
  -- The token that is made for another user opens, for that user, to the same key.
  pub token_get_token_for_user_opens :
      (a b : Account) (owner : Option User) (old : Option Bytes) (key : Bytes) (w : World R K D C)
      {t' : Token} {w' : World R K D C}
      → IsMember p w.cs a
      → IsMember p w.cs b
      → token_get_data s.th (some (record { user = user_of a; owner = owner; token = old })) w
        ≡ (done (some key), w)
      → token_get_token_for_user s.th
          (some (record { user = user_of a; owner = owner; token = old }))
          (some (loaded_user b))
          w
        ≡ (done t', w')
      → (token : Bytes) × (r : R) × (t' ≡ granted_token a b token)
        × (is_empty token ≡ false)
        × (hm_asym_decrypt s.th (some b.sk) (some a.pk) (some token) ≡ done (hm_success, some key))
        × (w' ≡ record w { rng = r })
  unfolding token_get_token_for_user token_create
  token_get_token_for_user_opens a b owner old key w m m' opened h =
      let h1 = tested_here-done _ _ _ (tested_here-done _ _ _ h) in
      let (k, w₁, got, h2) = bind-done _ _ _ h1 in
      let (is_key, s₁) = same_result (sym opened ∙ got) in
      let h3 = followed_here-done _ _ _ (rw is_key at h2) in
      let h4 = on_rng-done _ _ _ h3 in
      let (ok, h5) = succeeded-done _ _ _ h4 in
      let (same, state) = tested_last h5 in
      let (token, full, solid, opens) =
        hm_asym_encrypt_stored p.themis_laws a.sk a.pk b.sk b.pk _ _ _ _ m.paired m'.paired
          m.pk_full m'.sk_full (ungrouped _ ok) in
      (
        token,
        _,
        rw (user_copy_of a m.id_full m.pk_full, full) at same,
        solid,
        opens,
        rng_moved s₁ state,
      )

  token_save_stored :
      (is_update : Bool) {view other : K → Tokens}
      (sets : SetsToken view other (set_token s.ks is_update)) (a b : Account) (block token : Bytes)
      (w : World R K D C) {w' : World R K D C}
      → is_empty token ≡ false
      → token_save (some s.ks) (some (some block)) (some (granted_token a b token)) is_update w
        ≡ (done hm_success, w')
      → (k : K) × (w' ≡ record w { ks = k })
        × (view k ≡ token_at (view w.ks) block b.id (some (token, a.id)))
        × (other k ≡ other w.ks)
  unfolding token_save
  token_save_stored is_update sets a b block token w full h =
      let (ran, state) = on_keys_last _ _ (followed_here-done _ _ _ h) in
      let (views, others) = sets.stored w.ks _ block b.id token a.id full ran in
      (_, state, views, others)

  -- The views after a token that opens to `key` was granted: `view` shows tokens of its kind.
  pub record Granted (view other : K → Tokens) (a b : Account) (block key : Bytes)
      (w w' : World R K D C) : Type 0 where
    pub token : Bytes
    pub new_tokens : view w'.ks ≡ token_at (view w.ks) block b.id (some (token, a.id))
    pub same_others : other w'.ks ≡ other w.ks
    pub same_blocks : p.blocks w'.ds ≡ p.blocks w.ds
    pub same_keys : p.keys w'.cs ≡ p.keys w.cs
    pub opens :
        hm_asym_decrypt s.th (some b.sk) (some a.pk) (some token) ≡ done (hm_success, some key)

  -- A token for another user that was made and saved.
  token_views_after :
      (is_update : Bool) {view other : K → Tokens}
      (sets : SetsToken view other (set_token s.ks is_update)) (a b : Account) (owner : Option User)
      (old : Option Bytes) (block key : Bytes) (w w₁ w' : World R K D C) (t : Token)
      → IsMember p w.cs a
      → IsMember p w.cs b
      → token_get_data s.th (some (record { user = user_of a; owner = owner; token = old })) w
        ≡ (done (some key), w)
      → token_get_token_for_user s.th
          (some (record { user = user_of a; owner = owner; token = old }))
          (some (loaded_user b))
          w
        ≡ (done t, w₁)
      → token_save (some s.ks) (some (some block)) (some t) is_update w₁ ≡ (done hm_success, w')
      → Granted view other a b block key w w'
  token_views_after is_update {view} {other} sets a b owner old block key w w₁ w' t m m' opened made
        h =
      let (token, g, is_t, solid, opens, s₁) =
        token_get_token_for_user_opens a b owner old key w m m' opened made in
      let (k, s₂, views, others) =
        token_save_stored is_update sets a b block token w₁ solid (rw is_t at h) in
      record {
        token = token;
        new_tokens =
            ap (λ u. view u.ks) s₂
            ∙ views
            ∙ ap (λ (u : World R K D C). token_at (view u.ks) block b.id (some (token, a.id))) s₁;
        same_others = ap (λ u. other u.ks) s₂ ∙ others ∙ ap (λ (u : World R K D C). other u.ks) s₁;
        same_blocks = ap (λ u. p.blocks u.ds) s₂ ∙ ap (λ (u : World R K D C). p.blocks u.ds) s₁;
        same_keys = ap (λ u. p.keys u.cs) s₂ ∙ ap (λ (u : World R K D C). p.keys u.cs) s₁;
        opens = opens;
      }

  pub rtoken_granted_views :
      (a b : Account) (owner : Option User) (old : Option Bytes) (block key : Bytes) (bl : Block)
      (w : World R K D C) {x : Unit {0}} {w' : World R K D C}
      → bl.rtoken ≡ some (record { user = user_of a; owner = owner; token = old })
      → bl.id ≡ some (some block)
      → IsMember p w.cs a
      → IsMember p w.cs b
      → token_get_data s.th (some (record { user = user_of a; owner = owner; token = old })) w
        ≡ (done (some key), w)
      → rtoken_granted s.th (hermes_of s a) bl (loaded_user b) w ≡ (done x, w')
      → Granted p.reads p.writes a b block key w w'
  unfolding rtoken_granted block_rtoken_for
  rtoken_granted_views a b owner old block key bl w {w' = w'} has_token has_id m m' opened h =
      let (t, w₁, made, h1) = bind-done _ _ _ (rw (has_token, has_id) at h) in
      let (st, w₂, saved, h2) = bind-done _ _ _ h1 in
      let (ok, last) = succeeded_last _ h2 in
      token_views_after false p.key_laws.sets_rtoken a b owner old block key w w₁ w' t m m' opened
        (tested_here-done _ _ _ (tested_here-done _ _ _ made)) (rw (ok, sym last) at saved)

  pub wtoken_granted_views :
      (a b : Account) (owner : Option User) (old : Option Bytes) (block key : Bytes) (bl : Block)
      (w : World R K D C) {x : Unit {0}} {w' : World R K D C}
      → bl.wtoken ≡ some (record { user = user_of a; owner = owner; token = old })
      → bl.id ≡ some (some block)
      → IsMember p w.cs a
      → IsMember p w.cs b
      → token_get_data s.th (some (record { user = user_of a; owner = owner; token = old })) w
        ≡ (done (some key), w)
      → wtoken_granted s.th (hermes_of s a) bl (loaded_user b) w ≡ (done x, w')
      → Granted p.writes p.reads a b block key w w'
  unfolding wtoken_granted block_wtoken_for
  wtoken_granted_views a b owner old block key bl w {w' = w'} has_token has_id m m' opened h =
      let (t, w₁, made, h1) = bind-done _ _ _ (rw (has_token, has_id) at h) in
      let (st, w₂, saved, h2) = bind-done _ _ _ h1 in
      let (ok, last) = succeeded_last _ h2 in
      token_views_after true p.key_laws.sets_wtoken a b owner old block key w w₁ w' t m m' opened
        (tested_here-done _ _ _ (tested_here-done _ _ _ made)) (rw (ok, sym last) at saved)
