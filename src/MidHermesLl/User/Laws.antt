-- ===== src/MidHermesLl/User/Laws.antt =====
-- Users and their buffers (src/mid_hermes_ll/mid_hermes_ll_user.c, mid_hermes_ll_buffer.c): what a user
-- who was created, copied or loaded has.
use hermes_core.Prelude.{inl, inr, Bool-cases, ◌≡◌, refl, Option, none, some}
use hermes_core.Common.Bytes.{Bytes, is_given}
use hermes_core.MidHermesLl.Run.Safe.{
  Gives, IfThere, no_value, a_value, anything, bind-Gives, tested-Gives, pure-Gives, guard-Gives,
  succeeded-Gives, on_credentials-Gives,
}
use hermes_core.MidHermesLl.Stores.{World, CredentialStoreOps}
use hermes_core.MidHermesLl.User.{
  User, Buffer, buffer_is_empty, user_create, user_create_c, user_copy, user_load, user_load_c,
  local_user_load_c,
}

-- A user with a private key, who can be copied.
pub record IsLocal (u : User) : Type 0 where
  pub key : Buffer
  pub has_key : u.sk ≡ some key
  pub has_copy : user_copy u ≡ some u

-- A copy has a private key if the user has.
pub user_copy-IsLocal : (u : User) → IsLocal u → IfThere IsLocal (user_copy u)
user_copy-IsLocal u l = rw l.has_copy (a_value u l)

-- A user who was created can be given a private key.
abbrev pub CanBeLocal : User → Type 0
CanBeLocal u =
    (sk : Buffer) → user_copy (record u { sk = some sk }) ≡ some (record u { sk = some sk })

user_create-CanBeLocal : (id key : Option Buffer) → IfThere CanBeLocal (user_create id key)
unfolding user_create buffer_is_empty user_copy user_create_c
user_create-CanBeLocal none key = no_value
user_create-CanBeLocal (some id) none = no_value
user_create-CanBeLocal (some id) (some pk) = elim (Bool-cases (is_given id)) [
  | inr e ↦ rw e no_value
  | inl e ↦ elim (Bool-cases (is_given pk)) [
    | inr f ↦ rw (e, f) no_value
    | inl f ↦ rw (e, f) (a_value _ λ sk. rw (e, f) refl)
  ]
]

module _ {R K D C : Type 0} (cs : Option (CredentialStoreOps C)) where
  pub user_load-Gives :
      (id : Option Buffer) → Gives {W = World R K D C} CanBeLocal (user_load cs id)
  unfolding user_load
  user_load-Gives id = bind-Gives (tested-Gives (anything _)) λ i _.
      bind-Gives (tested-Gives (anything _)) λ c _.
        bind-Gives (on_credentials-Gives _)
          λ got _. bind-Gives (succeeded-Gives _) λ _ _. tested-Gives (user_create-CanBeLocal _ _)

  pub user_load_c-Gives :
      (id : Option Bytes) → Gives {W = World R K D C} CanBeLocal (user_load_c cs id)
  unfolding user_load_c
  user_load_c-Gives id = bind-Gives (guard-Gives _) λ _ _. user_load-Gives (some id)

  pub local_user_load_c-Gives :
      (id private_key : Option Bytes)
      → Gives {W = World R K D C} IsLocal (local_user_load_c cs id private_key)
  unfolding local_user_load_c
  local_user_load_c-Gives id private_key = bind-Gives (guard-Gives _) λ _ _.
      bind-Gives (user_load-Gives (some id)) λ user can.
        pure-Gives _ (record { key = private_key; has_key = refl; has_copy = can private_key })
