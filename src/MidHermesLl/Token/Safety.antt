-- ===== src/MidHermesLl/Token/Safety.antt =====
-- That the functions of src/mid_hermes_ll/mid_hermes_ll_token.c do not crash where the token's user has a
-- private key and the token has an owner.
use hermes_core.Prelude.{
  ℕ, ◌≡◌, refl, Bool, true, false, Option, none, some, ◌&&◌, inl, inr, Bool-cases,
}
use hermes_core.Common.Bytes.{Bytes, is_given, contents}
use hermes_core.Common.Status.{Status}
use hermes_core.MidHermesLl.Run.{Run, lift}
use hermes_core.MidHermesLl.Run.Safe.{
  Safe, gave, guard-Gives, Ends, pure-Ends, Gives, IfThere, no_value, a_value, Anything, anything,
  bind-Gives, tested-Gives, followed-Gives, pure-Gives, succeeded-Gives, on_rng-Gives,
  on_keys-Gives,
}
use hermes_core.MidHermesLl.Stores.{World, KeyStoreOps, CredentialStoreOps}
use hermes_core.MidHermesLl.Token.{
  token_load_c, Token, or_fail, token_create, token_generate, token_get_data,
  token_get_token_for_user, token_save, token_del,
}
use hermes_core.MidHermesLl.User.{User, Buffer, user_copy}
use hermes_core.MidHermesLl.User.Laws.{IsLocal, user_load-Gives, user_load_c-Gives}
use hermes_core.MidHermesLl.Utils.{Themis, unwrapped, hm_asym_decrypt}
use hermes_core.MidHermesLl.Utils.Laws.{NoneDamaged}

pub record HasOwner (t : Token) : Type 0 where
  pub owner : User
  pub has_owner : t.owner ≡ some owner

-- A token that can be opened.
pub record IsUsable (t : Token) : Type 0 where
  pub local : IsLocal t.user
  pub owned : HasOwner t

pub token_create-IsUsable :
    (u o : User) (token : Option Buffer)
    → IsLocal u
    → IfThere IsUsable (token_create (some u) (some o) token)
unfolding token_create
token_create-IsUsable u o none l = no_value
token_create-IsUsable u o (some token) l =
    a_value _ (record { local = l; owned = record { owner = o; has_owner = refl } })

token_create-HasOwner :
    (u o : User) (token : Option Buffer) (owner : Option User)
    → owner ≡ some o
    → IfThere HasOwner (token_create (some u) owner token)
unfolding token_create
token_create-HasOwner u o none owner e = no_value
token_create-HasOwner u o (some token) owner e = a_value _ (record { owner = o; has_owner = e })

pub or_fail-Ends :
    {W A : Type 0} (o : Option A) (f : A → Run W Status) (w : W)
    → ((a : A) → Ends (f a) w)
    → Ends (or_fail o f) w
or_fail-Ends none f w g = pure-Ends _ w
or_fail-Ends (some a) f w g = g a

pub or_fail-Gives :
    {W A : Type 0} (o : Option A) (f : A → Run W Status)
    → ((a : A) → Gives Anything (f a))
    → Gives Anything (or_fail o f)
or_fail-Gives none f g = pure-Gives _ tt
or_fail-Gives (some a) f g = g a

unwrapped-Safe :
    (size : Option ℕ) (fill : ℕ → Option Bytes)
    → ((n : ℕ) → size ≡ some n → (m : Bytes) × (fill n ≡ some m))
    → Safe Anything (unwrapped size fill)
unwrapped-Safe none fill h = gave _ tt
unwrapped-Safe (some n) fill h = let (m, e) = h n refl in rw e (gave _ tt)

module _ {R H K D C : Type 0} (th : Themis R H) (whole : NoneDamaged th) where
  pub token_generate-Gives :
      (o : Option User)
      → IfThere IsLocal o
      → Gives {W = World R K D C} IsUsable (token_generate th o)
  unfolding token_generate
  token_generate-Gives o l = bind-Gives (tested-Gives l) λ u h. bind-Gives (on_rng-Gives _) λ key _.
      bind-Gives (tested-Gives (anything _)) λ token _.
        bind-Gives (followed-Gives h.has_key) λ sk _. bind-Gives (on_rng-Gives _) λ made _.
          bind-Gives (succeeded-Gives _) λ _ _. tested-Gives (token_create-IsUsable u u _ h)

  -- Where no message is damaged, unwrapping ends with a status.
  asym_decrypt-Gives :
      (sk pk bytes : Option Bytes)
      → Gives {W = World R K D C} Anything (lift (hm_asym_decrypt th sk pk bytes))
  unfolding hm_asym_decrypt lift
  asym_decrypt-Gives sk pk bytes =
      elim (Bool-cases (is_given sk && is_given pk && is_given bytes)) [
        | inr e ↦ record { ends = λ w. rw e (gave _ tt) }
        | inl e ↦ record {
          ends = λ w.
              rw e
                (unwrapped-Safe _ _ (whole.unwraps (contents sk) (contents pk) (contents bytes)));
        }
      ]

  pub token_get_data-Gives :
      (t : Option Token)
      → IfThere IsUsable t
      → Gives {W = World R K D C} Anything (token_get_data th t)
  unfolding token_get_data
  token_get_data-Gives t h = bind-Gives {P = IsUsable} (tested-Gives h) λ t' h'.
      bind-Gives (followed-Gives h'.local.has_key) λ sk _.
        bind-Gives (followed-Gives h'.owned.has_owner) λ owner _.
          bind-Gives (asym_decrypt-Gives _ _ _)
            λ made _. bind-Gives (succeeded-Gives _) λ _ _. pure-Gives _ tt

  pub token_get_token_for_user-Gives :
      (t : Token) (u : Option User)
      → IsUsable t
      → Gives {W = World R K D C} HasOwner (token_get_token_for_user th (some t) u)
  unfolding token_get_token_for_user
  token_get_token_for_user-Gives t u h =
      bind-Gives {P = IsUsable} (tested-Gives (a_value t h)) λ t' h'.
        bind-Gives (tested-Gives (anything _)) λ u' _.
          bind-Gives (token_get_data-Gives (some t') (a_value t' h')) λ key _.
            bind-Gives (followed-Gives h'.local.has_key) λ sk _.
              bind-Gives (on_rng-Gives _) λ made _. bind-Gives (succeeded-Gives _) λ _ _.
                tested-Gives
                  (token_create-HasOwner u' t'.user _ (user_copy t'.user) h'.local.has_copy)

-- A token of which the owner is named is saved whether it can be opened or not.
pub owned_of : (o : Option Token) → IfThere IsUsable o → IfThere HasOwner o
owned_of none h = no_value
owned_of (some t) (a_value _ h) = a_value t h.owned

module _ {R K I D C : Type 0} (key_store : Option (KeyStoreOps K I)) where
  pub token_load_c-Gives :
      (cs : Option (CredentialStoreOps C)) (user_id block_id : Option Bytes) (is_update : Bool)
      → Gives {W = World R K D C} HasOwner (token_load_c key_store cs user_id block_id is_update)
  unfolding token_load_c
  token_load_c-Gives cs user_id block_id is_update = bind-Gives (guard-Gives _) λ _ _.
      bind-Gives (tested-Gives (anything _)) λ ks _. bind-Gives (on_keys-Gives _) λ got _.
        bind-Gives (succeeded-Gives _) λ _ _. bind-Gives (user_load_c-Gives cs user_id) λ user _.
          bind-Gives (user_load-Gives cs _)
            λ owner _. tested-Gives (token_create-HasOwner user owner _ (some owner) refl)

  pub token_save-Gives :
      (id : Option Buffer) (t : Token) (is_update : Bool)
      → HasOwner t
      → Gives {W = World R K D C} Anything (token_save key_store id (some t) is_update)
  unfolding token_save
  token_save-Gives none t is_update h = pure-Gives _ tt
  token_save-Gives (some id) t is_update h =
      or_fail-Gives key_store _
        λ ks. bind-Gives (followed-Gives h.has_owner) λ owner _. on_keys-Gives _

  pub token_del-Gives :
      (user : Option User) (owner : User) (id : Option Buffer) (is_update : Bool)
      → Gives {W = World R K D C} Anything (token_del key_store user owner id is_update)
  unfolding token_del
  token_del-Gives none owner id is_update = pure-Gives _ tt
  token_del-Gives (some user) owner none is_update = pure-Gives _ tt
  token_del-Gives (some user) owner (some id) true =
      or_fail-Gives key_store _ λ ks. bind-Gives (on_keys-Gives _) λ status _. pure-Gives _ tt
  token_del-Gives (some user) owner (some id) false =
      or_fail-Gives key_store _ λ ks. bind-Gives (on_keys-Gives _) λ status _. on_keys-Gives _
