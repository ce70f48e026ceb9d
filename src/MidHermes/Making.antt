-- ===== src/MidHermes/Making.antt =====
-- What generating a token, encrypting and making a MAC (src/mid_hermes_ll) leave, where they succeed.
use hermes_core.Prelude.{◌≡◌, ◌∙◌, refl, ap, false, Option, some, is_empty}
use hermes_core.Common.Bytes.{Bytes}
use hermes_core.Common.Status.{hm_success}
use hermes_core.MidHermes.Access.{Services, Promises, Account, user_of, IsMember}
use hermes_core.MidHermesLl.Block.{sealed, mac_of}
use hermes_core.MidHermesLl.Run.{
  tested_last, pure_last, done, followed_here-done, tested-done, tested_here-done, succeeded-done,
}
use hermes_core.MidHermesLl.Stores.{World, on_rng-done}
use hermes_core.MidHermesLl.Token.{Token, token_generate, token_create, grouped}
use hermes_core.MidHermesLl.Utils.{Themis, hm_asym_decrypt, hm_decrypt, hm_mac_create}
use hermes_core.MidHermesLl.Utils.Laws.{
  hm_asym_encrypt_stored, hm_encrypt_stored, hm_mac_create_found,
}

abbrev pub own_token : Account → Bytes → Token
own_token a token = record { user = user_of a; owner = some (user_of a); token = some token }

pub ungrouped :
    {A B R : Type 0} (r : A × B × R) {a : A}
    → (grouped r).0.0 ≡ a
    → r ≡ (a, (grouped r).0.1, (grouped r).1)
ungrouped (a, b, r) e = rw e refl

module _ {R H K I D C : Type 0} {s : Services R H K I D C} (p : Promises s) where
  -- A token that was generated opens for its user, and only the random source has moved.
  pub token_generate_opens :
      (a : Account) (w : World R K D C) {w₁ : World R K D C} {t : Token}
      → IsMember p w.cs a
      → token_generate s.th (some (user_of a)) w ≡ (done t, w₁)
      → (token key : Bytes) × (r : R) × (t ≡ own_token a token)
        × (is_empty token ≡ false)
        × (hm_asym_decrypt s.th (some a.sk) (some a.pk) (some token) ≡ done (hm_success, some key))
        × (w₁ ≡ record w { rng = r })
  unfolding token_generate token_create
  token_generate_opens a w m h =
      let h1 = tested_here-done _ _ _ h in
      let h2 = on_rng-done _ _ _ h1 in
      let (key, random, h3) = tested-done _ _ _ h2 in
      let h4 = followed_here-done _ _ _ h3 in
      let h5 = on_rng-done _ _ _ h4 in
      let (ok, h6) = succeeded-done _ _ _ h5 in
      let (same, state) = tested_last h6 in
      let (token, full, solid, opens) =
        hm_asym_encrypt_stored p.themis_laws a.sk a.pk a.sk a.pk _ _ _ _ m.paired m.paired m.pk_full
          m.sk_full (ungrouped _ ok) in
      (token, key, _, rw full at same, solid, opens, state)

  -- What was encrypted opens, and only the random source has moved.
  pub sealed_opens :
      (key bytes : Bytes) (meta : Option Bytes) (w : World R K D C) {w₁ : World R K D C}
      {c : Option Bytes}
      → sealed s.th (some key) (some bytes) meta w ≡ (done c, w₁)
      → (cipher : Bytes) × (r : R) × (c ≡ some cipher)
        × (is_empty cipher ≡ false)
        × (hm_decrypt s.th (some key) (some cipher) meta ≡ (hm_success, some bytes))
        × (w₁ ≡ record w { rng = r })
  unfolding sealed
  sealed_opens key bytes meta w h =
      let h1 = on_rng-done _ _ _ h in
      let (ok, h2) = succeeded-done _ _ _ h1 in
      let (cipher, full, solid, opens) =
        hm_encrypt_stored p.themis_laws _ _ _ _ _ _ (ungrouped _ ok) in
      let (same, state) = pure_last h2 in (cipher, _, same ∙ full, solid, opens, state)

-- A MAC that was made is the function's, and the state stays.
pub mac_of_made :
    {R H K D C : Type 0} (th : Themis R H) (key bytes meta : Option Bytes) (w : World R K D C)
    {w₁ : World R K D C} {m : Option Bytes}
    → mac_of th key bytes meta w ≡ (done m, w₁)
    → (mac : Bytes) × (m ≡ some mac)
      × (hm_mac_create th key bytes meta ≡ (hm_success, some mac))
      × (w₁ ≡ w)
unfolding mac_of
mac_of_made th key bytes meta w h =
    let (ok, h1) = succeeded-done _ _ _ h in
    let (same, state) = pure_last h1 in
    let out = (hm_mac_create th key bytes meta).1 in
    let whole : hm_mac_create th key bytes meta ≡ (hm_success, out) = ap (λ st. (st, out)) ok in
    let (mac, full) = hm_mac_create_found th key bytes meta whole in
    (mac, same ∙ full, whole ∙ ap (λ o. (hm_success, o)) full, state)
