-- ===== src/MidHermesLl/Block.antt =====
-- src/mid_hermes_ll/mid_hermes_ll_block.c: a block in memory, its encryption under a read token and its
-- MAC under a write token. The functions that use the stores are in the modules below. Fields and
-- arguments that may be NULL are options; a user is never NULL, and that memory is freed is not
-- modelled. The functions that a block carries as pointers are called directly.
pub mod Rights
pub mod Stored
pub mod Safety
use hermes_core.Prelude.{Bool, true, false, Option, none, some, if◌then◌else◌}
use hermes_core.Common.Status.{Status, hm_success}
use hermes_core.MidHermesLl.Run.{
  Run, or_null, ◌>>=◌, ◌>>◌, pure, tested, followed, guard, succeeded,
}
use hermes_core.MidHermesLl.Stores.{World, on_rng}
use hermes_core.MidHermesLl.Token.{
  Token, grouped, token_generate, token_get_data, token_get_token_for_user,
}
use hermes_core.MidHermesLl.User.{User, Buffer, user_copy}
use hermes_core.MidHermesLl.Utils.{Themis, hm_encrypt, hm_decrypt, hm_mac_create}

pub record Block : Type 0 where
  pub user : User
  pub id : Option Buffer
  pub block : Option Buffer
  pub bytes : Option Buffer
  pub meta : Option Buffer
  pub mac : Option Buffer
  pub old_mac : Option Buffer
  pub rtoken : Option Token
  pub wtoken : Option Token

unfoldable pub block_create_empty : User → Block
block_create_empty user = record {
  user = user;
  id = none;
  block = none;
  bytes = none;
  meta = none;
  mac = none;
  old_mac = none;
  rtoken = none;
  wtoken = none;
}

abbrev pub or_else : {A : Type 0} → Option A → Option A → Option A
or_else none b = b
or_else (some a) b = some a

-- `if (bl->old_mac) destroy(&(bl->mac)); else bl->old_mac = bl->mac;`
abbrev pub kept_mac : Block → Option Buffer
kept_mac bl = or_else bl.old_mac bl.mac

module _ {R H K D C : Type 0} (th : Themis R H) where
  -- The message encrypted under the data of a read token.
  unfoldable pub sealed : Buffer → Buffer → Buffer → Run (World R K D C) Buffer
  sealed key bytes meta = do
    made ← on_rng (λ r. grouped (hm_encrypt th key bytes meta r))
    succeeded made.0
    pure made.1

  unfoldable pub mac_of : Buffer → Buffer → Buffer → Run (World R K D C) Buffer
  mac_of key bytes meta = do
    let made = hm_mac_create th key bytes meta
    succeeded made.0
    pure made.1

  unfoldable pub block_create_new :
      Option User
      → Option Buffer
      → Option Buffer
      → Option Buffer
      → Option Token
      → Option Token
      → Run (World R K D C) Block
  block_create_new user id bytes meta read_token write_token = do
    u ← tested user
    i ← tested id
    b ← tested bytes
    m ← tested meta
    rtoken ← tested read_token
    wtoken ← tested write_token
    rt ← token_get_data th (some rtoken)
    block ← sealed rt b m
    wt ← token_get_data th (some wtoken)
    mac ← mac_of wt b m
    pure (record (block_create_empty u) {
      block = some block;
      mac = some mac;
      id = some i;
      meta = some m;
      bytes = some b;
      rtoken = some rtoken;
      wtoken = some wtoken;
    })

  -- The bytes are encrypted under the new read token; the MAC is made under the given write token, or
  -- under the new one.
  unfoldable pub encrypted_new :
      Block
      → User
      → Option Buffer
      → Buffer
      → Buffer
      → Option Token
      → Token
      → Token
      → Run (World R K D C) Block
  encrypted_new bl user id bytes meta write_token rtoken wtoken = do
    rt ← token_get_data th (some rtoken)
    block ← sealed rt bytes meta
    wt ← token_get_data th (or_else write_token (some wtoken))
    mac ← mac_of wt bytes meta
    pure (record bl {
      user = user;
      rtoken = some rtoken;
      wtoken = some wtoken;
      block = some block;
      mac = some mac;
      id = id;
      meta = some meta;
      bytes = some bytes;
    })

  -- `block_init` without a read token: new tokens are made.
  unfoldable pub init_new :
      Block → User → Option Buffer → Buffer → Buffer → Option Token → Run (World R K D C) Block
  init_new bl user id bytes meta write_token = do
    read_made ← or_null (token_generate th (user_copy user))
    write_made ← or_null (token_generate th (user_copy user))
    rtoken ← tested read_made
    wtoken ← tested write_made
    encrypted_new bl user id bytes meta write_token rtoken wtoken

  -- A block that has no write token has no MAC made.
  unfoldable pub init_mac :
      Option Token → Option Buffer → Buffer → Buffer → Run (World R K D C) (Option Buffer)
  init_mac none mac bytes meta = pure mac
  init_mac (some wtoken) mac bytes meta = do
    wt ← token_get_data th (some wtoken)
    made ← mac_of wt bytes meta
    pure (some made)

  -- `block_init` with a read token: the bytes are decrypted.
  unfoldable pub init_read :
      Block
      → User
      → Option Buffer
      → Buffer
      → Buffer
      → Token
      → Option Token
      → Run (World R K D C) Block
  init_read bl user id bytes meta read_token write_token = do
    rt ← token_get_data th (some read_token)
    let made = hm_decrypt th rt bytes meta
    succeeded made.0
    mac ← init_mac (or_else write_token bl.wtoken) bl.mac made.1 meta
    pure (record bl {
      user = user;
      bytes = some made.1;
      mac = mac;
      id = id;
      meta = some meta;
      block = some bytes;
      rtoken = some read_token;
      wtoken = write_token;
    })

  unfoldable pub block_init :
      Block
      → User
      → Option Buffer
      → Buffer
      → Buffer
      → Option Token
      → Option Token
      → Run (World R K D C) Block
  block_init bl user id bytes meta none write_token = init_new bl user id bytes meta write_token
  block_init bl user id bytes meta (some read_token) write_token =
      init_read bl user id bytes meta read_token write_token

  unfoldable pub block_create :
      User
      → Option Buffer
      → Buffer
      → Buffer
      → Option Token
      → Option Token
      → Run (World R K D C) Block
  block_create user id bytes meta read_token write_token =
      block_init (block_create_empty user) user id bytes meta read_token write_token

  unfoldable pub block_update : Block → Option Buffer → Option Buffer → Run (World R K D C) Block
  block_update bl bytes meta = do
    b ← tested bytes
    m ← tested meta
    rtoken ← tested bl.rtoken
    wtoken ← tested bl.wtoken
    read_key ← or_null (token_get_data th (some rtoken))
    write_key ← or_null (token_get_data th (some wtoken))
    rt ← tested read_key
    wt ← tested write_key
    new_block ← sealed rt b m
    new_mac ← mac_of wt b m
    pure (record bl {
      meta = some m;
      bytes = some b;
      block = some new_block;
      old_mac = kept_mac bl;
      mac = some new_mac;
    })

  unfoldable pub block_rtoken_for : Block → Option User → Run (World R K D C) Token
  block_rtoken_for bl for_user = do
    rtoken ← tested bl.rtoken
    u ← tested for_user
    token_get_token_for_user th (some rtoken) (some u)

  unfoldable pub block_wtoken_for : Block → Option User → Run (World R K D C) Token
  block_wtoken_for bl for_user = do
    wtoken ← tested bl.wtoken
    u ← tested for_user
    token_get_token_for_user th (some wtoken) (some u)
