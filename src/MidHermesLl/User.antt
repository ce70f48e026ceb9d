-- ===== src/MidHermesLl/User.antt =====
-- src/mid_hermes_ll/mid_hermes_ll_buffer.c and mid_hermes_ll_user.c.
-- A buffer (`mid_hermes_ll_buffer_t`) is its pointer with the length, and a pointer to a buffer is an
-- option of that. That memory is freed is not modelled.
pub mod Laws
use hermes_core.Prelude.{
  ℕ, Bool, true, false, not, ◌&&◌, ◌||◌, Option, none, some, if◌then◌else◌, length, ◌==◌,
}
use hermes_core.Common.Bytes.{Bytes, is_given, contents}
use hermes_core.Common.MemCmp.{cst_time_memcmp}
use hermes_core.Common.Status.{Status, hm_success}
use hermes_core.MidHermesLl.Run.{Run, ◌>>=◌, ◌>>◌, pure, tested, guard, succeeded}
use hermes_core.MidHermesLl.Stores.{World, CredentialStoreOps, on_credentials}

abbrev pub Buffer : Type 0
Buffer = Option Bytes

unfoldable pub buffer_is_empty : Buffer → Bool
buffer_is_empty b = not (is_given b)

abbrev pub is_there : {A : Type 0} → Option A → Bool
is_there none = false
is_there (some a) = true

abbrev pub is_zero : Option ℕ → Bool
is_zero none = false
is_zero (some n) = n == 0

unfoldable pub buffer_is_equal : Buffer → Buffer → Bool
buffer_is_equal b c =
    if not (length (contents c) == length (contents b))
      || not (is_zero (cst_time_memcmp (contents b) (contents c) (length (contents b))))
    then false
    else true

-- A buffer is left with the bytes, or without any.
unfoldable pub buffer_reset : Buffer → Option Bytes → Status × Buffer
buffer_reset (some old) (some bs) = (hm_success, some bs)
buffer_reset (some old) none = (hm_success, none)
buffer_reset none (some bs) = (hm_success, some bs)
buffer_reset none none = (hm_success, none)

-- `sk` is the pointer to the buffer of the private key, which only a local user has.
pub record User : Type 0 where
  pub id : Buffer
  pub sk : Option Buffer
  pub pk : Buffer

unfoldable pub user_create : Option Buffer → Option Buffer → Option User
user_create (some id) (some public_key) =
    if buffer_is_empty id
    then none
    else if buffer_is_empty public_key
    then none
    else some (record { id = id; sk = none; pk = public_key })
user_create _ _ = none

abbrev pub with_sk : Buffer → Option User → Option User
with_sk private_key none = none
with_sk private_key (some u) = some (record u { sk = some private_key })

unfoldable pub local_user_create : Option Buffer → Option Buffer → Option Buffer → Option User
local_user_create (some id) (some private_key) (some public_key) =
    if buffer_is_empty id || buffer_is_empty private_key || buffer_is_empty public_key
    then none
    else with_sk private_key (user_create (some id) (some public_key))
local_user_create _ _ _ = none

unfoldable pub user_is_equal : User → User → Bool
user_is_equal u v = buffer_is_equal u.id v.id

unfoldable pub user_create_c : Option Bytes → Option Bytes → Option User
user_create_c id public_key =
    if not (is_given id && is_given public_key)
    then none
    else user_create (some id) (some public_key)

unfoldable pub local_user_create_c : Option Bytes → Option Bytes → Option Bytes → Option User
local_user_create_c id private_key public_key =
    if not (is_given id && is_given private_key && is_given public_key)
    then none
    else local_user_create (some id) (some private_key) (some public_key)

abbrev pub copy_sk : Option Buffer → Option User → Option User
copy_sk none u = u
copy_sk (some sk) u = with_sk sk u

unfoldable pub user_copy : User → Option User
user_copy u = copy_sk u.sk (user_create_c u.id u.pk)

-- The credential store may be NULL.
module _ {R K D C : Type 0} (credential_store : Option (CredentialStoreOps C)) where
  unfoldable pub user_load : Option Buffer → Run (World R K D C) User
  user_load id = do
    i ← tested id
    cs ← tested credential_store
    got ← on_credentials (cs.get_public_key i)
    succeeded got.0
    tested (user_create (some i) (some (some got.1)))

  unfoldable pub user_load_c : Option Bytes → Run (World R K D C) User
  user_load_c id = do guard (is_given id && is_there credential_store); user_load (some id)

  unfoldable pub local_user_load_c : Option Bytes → Option Bytes → Run (World R K D C) User
  local_user_load_c id private_key = do
    guard (is_given id && is_given private_key && is_there credential_store)
    user ← user_load (some id)
    pure (record user { sk = some private_key })
