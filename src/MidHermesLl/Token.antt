-- ===== src/MidHermesLl/Token.antt =====
-- src/mid_hermes_ll/mid_hermes_ll_token.c: the key of a block, wrapped for its user by its owner.
-- A use of a private key that is not there is a crash.
pub mod Safety
use hermes_core.Prelude.{ℕ, Bool, true, false, ◌&&◌, Option, none, some, if◌then◌else◌}
use hermes_core.Common.Bytes.{Bytes, is_given}
use hermes_core.Common.Status.{Status, hm_fail}
use hermes_core.MidHermesLl.Run.{Run, lift, ◌>>=◌, ◌>>◌, pure, tested, followed, guard, succeeded}
use hermes_core.MidHermesLl.Stores.{World, KeyStoreOps, CredentialStoreOps, on_rng, on_keys}
use hermes_core.MidHermesLl.User.{User, Buffer, is_there, user_copy, user_load, user_load_c}
use hermes_core.MidHermesLl.Utils.{Themis, hm_asym_encrypt, hm_asym_decrypt}

pub record Token : Type 0 where
  pub user : User
  pub owner : Option User
  pub token : Buffer

-- HM_TOKEN_LEN.
abbrev pub token_len : ℕ
token_len = 64

unfoldable pub token_create : Option User → Option User → Option Buffer → Option Token
token_create (some user) owner (some token) =
    some (record { user = user; owner = owner; token = token })
token_create _ _ _ = none

abbrev pub grouped : {A B R : Type 0} → A × B × R → (A × B) × R
grouped (a, b, r) = ((a, b), r)

module _ {R H K D C : Type 0} (th : Themis R H) where
  unfoldable pub token_generate : Option User → Run (World R K D C) Token
  token_generate user_and_owner = do
    u ← tested user_and_owner
    key ← on_rng (th.rand token_len)
    token ← tested key
    sk ← followed u.sk
    made ← on_rng (λ r. grouped (hm_asym_encrypt th sk u.pk (some token) r))
    succeeded made.0
    tested (token_create (some u) (some u) (some made.1))

  unfoldable pub token_get_data : Option Token → Run (World R K D C) Buffer
  token_get_data token = do
    t ← tested token
    sk ← followed t.user.sk
    owner ← followed t.owner
    made ← lift (hm_asym_decrypt th sk owner.pk t.token)
    succeeded made.0
    pure made.1

  unfoldable pub token_get_token_for_user : Option Token → Option User → Run (World R K D C) Token
  token_get_token_for_user token for_user = do
    t ← tested token
    u ← tested for_user
    key ← token_get_data (some t)
    sk ← followed t.user.sk
    made ← on_rng (λ r. grouped (hm_asym_encrypt th sk u.pk key r))
    succeeded made.0
    tested (token_create (some u) (user_copy t.user) (some made.1))

-- A NULL argument is answered by HM_FAIL.
abbrev pub or_fail : {W A : Type 0} → Option A → (A → Run W Status) → Run W Status
or_fail none f = pure hm_fail
or_fail (some a) f = f a

module _ {K I : Type 0} (ks : KeyStoreOps K I) where
  abbrev pub get_token : Bool → Option Bytes → Option Bytes → K → (Status × Bytes × Bytes) × K
  get_token is_update = if is_update then ks.get_wtoken else ks.get_rtoken

  abbrev pub set_token :
      Bool → Option Bytes → Option Bytes → Option Bytes → Option Bytes → K → Status × K
  set_token is_update = if is_update then ks.set_wtoken else ks.set_rtoken

-- The stores may be NULL.
module _ {R K I D C : Type 0} (key_store : Option (KeyStoreOps K I)) where
  module _ (credential_store : Option (CredentialStoreOps C)) where
    -- The user is loaded from the credential store, without a private key.
    unfoldable pub token_load_c : Option Bytes → Option Bytes → Bool → Run (World R K D C) Token
    token_load_c user_id block_id is_update = do
      guard (is_given user_id && is_given block_id && is_there credential_store)
      ks ← tested key_store
      got ← on_keys (get_token ks is_update user_id block_id)
      succeeded got.0
      user ← user_load_c credential_store user_id
      owner ← user_load credential_store (some (some got.2))
      tested (token_create (some user) (some owner) (some (some got.1)))

    unfoldable pub rtoken_load_c : Option Bytes → Option Bytes → Run (World R K D C) Token
    rtoken_load_c user_id block_id = token_load_c user_id block_id false

    unfoldable pub wtoken_load_c : Option Bytes → Option Bytes → Run (World R K D C) Token
    wtoken_load_c user_id block_id = token_load_c user_id block_id true

  unfoldable pub token_save : Option Buffer → Option Token → Bool → Run (World R K D C) Status
  token_save (some block_id) (some t) is_update = or_fail key_store λ ks. do
    owner ← followed t.owner
    on_keys (set_token ks is_update t.user.id block_id t.token owner.id)
  token_save _ _ is_update = pure hm_fail

  -- The write token goes in any case; the status is that of the deletion that was asked for.
  unfoldable pub token_del : Option User → User → Option Buffer → Bool → Run (World R K D C) Status
  token_del (some user) owner (some block_id) is_update = or_fail key_store λ ks. do
    status ← on_keys (ks.set_wtoken user.id block_id none owner.id)
    if is_update then pure status else on_keys (ks.set_rtoken user.id block_id none owner.id)
  token_del _ owner _ is_update = pure hm_fail
