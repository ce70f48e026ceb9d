-- ===== src/MidHermes/Resealing.antt =====
-- What updating a block that was loaded (mid_hermes_ll_block_update of
-- src/mid_hermes_ll/mid_hermes_ll_block.c) makes.
use hermes_core.Prelude.{
  inl, inr, Bool-cases, ◌≡◌, ◌∙◌, sym, refl, ap, false, ◌&&◌, Option, none, some, is_empty, arith,
}
use hermes_core.Common.Bytes.{Bytes, is_given}
use hermes_core.Common.Status.{hm_success}
use hermes_core.MidHermes.Access.{Services, Promises, Account, Holds}
use hermes_core.MidHermes.Creating.{OnlyRng, OnlyRng-trans, OnlyRng-of_eq, OnlyRng-of_rng}
use hermes_core.MidHermes.Loading.{token_of, token_get_data_of, loaded_block}
use hermes_core.MidHermes.Making.{sealed_opens, mac_of_made}
use hermes_core.MidHermes.Saving.{IsSaveable}
use hermes_core.MidHermesLl.Block.{Block, block_update}
use hermes_core.MidHermesLl.Run.{
  Run, done, or_null, or_null_done, ◌>>=◌, bind_run, bind-done, tested_here-done, pure_last,
}
use hermes_core.MidHermesLl.Stores.{World}
use hermes_core.MidHermesLl.Stores.Laws.{Tokens}
use hermes_core.MidHermesLl.Utils.{Themis, hm_asym_decrypt, hm_decrypt, hm_mac_create}

-- A token that opens is not empty.
asym_opened_full :
    {R H : Type 0} (th : Themis R H) (sk pk token : Bytes) {key : Option Bytes}
    → hm_asym_decrypt th (some sk) (some pk) (some token) ≡ done (hm_success, key)
    → is_empty token ≡ false
unfolding hm_asym_decrypt
asym_opened_full th sk pk token h =
    elim (Bool-cases (is_given (some sk) && is_given (some pk) && is_given (some token))) [
      | inr e ↦ absurd (ground (arith, rw e at h))
      | inl e ↦ ground (arith, e)
    ]

-- What follows a call whose result is known.
known :
    {W A B : Type 0} (m : Run W A) (f : Option A → Run W B) {w w₁ w' : W} {a : A} {b : B}
    → m w ≡ (done a, w₁)
    → (or_null m >>= f) w ≡ (done b, w')
    → f (some a) w₁ ≡ (done b, w')
known m f {w} e h = sym (bind_run _ f w (or_null_done m w e)) ∙ h

module _ {R H K I D C : Type 0} {s : Services R H K I D C} (p : Promises s) where
  -- A block that was updated: new bytes and meta under the keys of the tokens that it was loaded with.
  pub record IsResealed (a : Account) (bl : Block) (block bytes meta rkey wkey : Bytes)
      (rtoken rowner wtoken wowner : Bytes) : Type 0 where
    pub ready : IsSaveable a bl
    pub has_id : bl.id ≡ some (some block)
    pub opens :
        hm_decrypt s.th (some rkey) (some ready.cipher) (some meta) ≡ (hm_success, some bytes)
    pub made :
        hm_mac_create s.th (some wkey) (some bytes) (some meta) ≡ (hm_success, some ready.mac)
    pub same_meta : ready.meta ≡ meta
    pub same_rtoken : ready.rtoken ≡ rtoken
    pub same_rowner : ready.rowner ≡ rowner
    pub same_wtoken : ready.wtoken ≡ wtoken
    pub same_wowner : ready.wowner ≡ wowner

  pub block_update-IsResealed :
      (a : Account) (block cipher bytes meta mac new_bytes new_meta rkey wkey : Bytes)
      (reads writes : Tokens) (c : C) (hr : Holds p reads c a block rkey)
      (hw : Holds p writes c a block wkey) (w : World R K D C) {bl : Block} {w' : World R K D C}
      → block_update s.th
          (loaded_block p a block cipher bytes meta
            (token_of p a hr.token hr.owner hr.owner_pk)
            (some (token_of p a hw.token hw.owner hw.owner_pk))
            (some (some mac)))
          (some (some new_bytes))
          (some (some new_meta))
          w
        ≡ (done bl, w')
      → IsResealed a bl block new_bytes new_meta rkey wkey hr.token hr.owner hw.token hw.owner
        × OnlyRng w w'
  unfolding block_update
  block_update-IsResealed a block cipher bytes meta mac new_bytes new_meta rkey wkey reads writes c
        hr hw w {w' = w'} h =
      let h1 = tested_here-done _ _ _ (tested_here-done _ _ _ h) in
      let h2 = tested_here-done _ _ _ (tested_here-done _ _ _ h1) in
      let h3 = known _ _ (token_get_data_of p w a reads c block rkey hr) h2 in
      let h4 = known _ _ (token_get_data_of p w a writes c block wkey hw) h3 in
      let h6 = tested_here-done _ _ _ (tested_here-done _ _ _ h4) in
      let (cph, w₃, d₃, h7) = bind-done _ _ _ h6 in
      let (mc, w₄, d₄, h8) = bind-done _ _ _ h7 in
      let (same, s₅) = pure_last h8 in
      let (new_cipher, r, is_cipher, solid, opens, s₃) =
        sealed_opens p rkey new_bytes (some new_meta) w d₃ in
      let (new_mac, is_mac, made, s₄) =
        mac_of_made s.th (some wkey) (some new_bytes) (some new_meta) w₃ d₄ in
      (
        record {
          ready = record {
            cipher = new_cipher;
            meta = new_meta;
            mac = new_mac;
            rtoken = hr.token;
            rowner = hr.owner;
            rsk = none;
            rpk = some hr.owner_pk;
            wtoken = hw.token;
            wowner = hw.owner;
            wsk = none;
            wpk = some hw.owner_pk;
            has_block = ap (λ b. b.block) same ∙ ap (λ o. some o) is_cipher;
            has_meta = ap (λ b. b.meta) same;
            has_mac = ap (λ b. b.mac) same ∙ ap (λ o. some o) is_mac;
            has_rtoken = ap (λ b. b.rtoken) same;
            has_wtoken = ap (λ b. b.wtoken) same;
            rtoken_full = asym_opened_full s.th a.sk hr.owner_pk hr.token hr.opens;
            wtoken_full = asym_opened_full s.th a.sk hw.owner_pk hw.token hw.opens;
          };
          has_id = ap (λ b. b.id) same;
          opens = opens;
          made = made;
          same_meta = refl;
          same_rtoken = refl;
          same_rowner = refl;
          same_wtoken = refl;
          same_wowner = refl;
        },
        OnlyRng-trans w w₃ w' (OnlyRng-of_rng w w₃ r s₃) (OnlyRng-of_eq w₃ w' (s₅ ∙ s₄)),
      )
