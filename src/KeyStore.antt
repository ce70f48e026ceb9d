-- ===== src/KeyStore.antt =====
-- src/key_store/functions.c: the operations of the key store over the database that the service is
-- given (`hm_ks_db_t`), their stubs on the server and their proxies in the client.
-- The database is a parameter: its state `D` and its functions, each of which may be NULL. Pointers to
-- results are always given, and results are returned. `none` as a result is a call through NULL.
pub mod Names
pub mod Stubs
pub mod Proxies
pub mod SameId
pub mod Access
pub mod Granting
pub mod Remote
pub mod RemoteGet
pub mod RemoteDel
pub mod RemoteRights
pub mod Server
pub mod Client
pub mod Service
use Prim.Native.Nat.{Ordering}
use hermes_core.Prelude.{
  ℕ, Bool, true, false, not, ◌&&◌, ◌||◌, Option, none, some, List, [], length, if◌then◌else◌, ◌==◌,
}
use hermes_core.Common.Bytes.{Bytes, is_given, contents}
use hermes_core.Common.Memory.{memcmp}
use hermes_core.Common.Status.{Status, hm_success, hm_fail, hm_invalid_parameter}

-- The block's id, the user's id, the owner's id and the token, in the order of the arguments.
abbrev pub SetToken : Type 0 → Type 0
SetToken D = D → Bytes → Bytes → Bytes → Bytes → Status × D

-- The results are the token and the id of its owner.
abbrev pub GetToken : Type 0 → Type 0
GetToken D = D → Bytes → Bytes → Status × Bytes × Bytes × D

abbrev pub DelToken : Type 0 → Type 0
DelToken D = D → Bytes → Bytes → Bytes → Status × D

-- The results are the user's id and the rights mask.
abbrev pub GetIndexedRights : Type 0 → Type 0
GetIndexedRights D = D → Bytes → ℕ → Status × Bytes × ℕ × D

-- `user_data` tells whether that pointer is not NULL.
pub record Db (D : Type 0) : Type 0 where
  pub user_data : Bool
  pub set_rtoken : Option (SetToken D)
  pub set_wtoken : Option (SetToken D)
  pub get_rtoken : Option (GetToken D)
  pub get_wtoken : Option (GetToken D)
  pub get_indexed_rights : Option (GetIndexedRights D)
  pub del_rtoken : Option (DelToken D)
  pub del_wtoken : Option (DelToken D)

abbrev pub is_there : {A : Type 0} → Option A → Bool
is_there none = false
is_there (some a) = true

abbrev pub is_eq : Option Ordering → Bool
is_eq (some Ordering.eq) = true
is_eq _ = false

-- The ids have one length and the same bytes.
unfoldable pub same_id : Bytes → Bytes → Bool
same_id user owner = (length user == length owner) && is_eq (memcmp (length user) user owner)

unfoldable pub check_backend : {D : Type 0} → Db D → ℕ
check_backend db =
    if is_there db.set_rtoken
      && is_there db.set_wtoken
      && is_there db.get_rtoken
      && is_there db.get_wtoken
      && is_there db.del_rtoken
      && is_there db.del_wtoken
      && is_there db.get_indexed_rights
    then 1
    else 0

module _ {D : Type 0} where
  -- The common text of `hm_key_store_set_rtoken` and `hm_key_store_set_wtoken`: unless the user is the
  -- owner, the owner must have a token of that kind.
  unfoldable pub set_token :
      Bool
      → Option (GetToken D)
      → Option (SetToken D)
      → Option Bytes
      → Option Bytes
      → Option Bytes
      → Option Bytes
      → D
      → Status × D
  set_token user_data (some get) (some set) block user owner token d =
      let test = get d (contents block) (contents owner) in
      if not (user_data && is_given block && is_given user && is_given owner && is_given token)
      then (hm_invalid_parameter, d)
      else if same_id (contents user) (contents owner)
      then set d (contents block) (contents user) (contents owner) (contents token)
      else if not (test.0 == hm_success)
      then (hm_fail, test.3)
      else set test.3 (contents block) (contents user) (contents owner) (contents token)
  set_token user_data _ _ block user owner token d = (hm_invalid_parameter, d)

  unfoldable pub get_token :
      Bool → Option (GetToken D) → Option Bytes → Option Bytes → D → Status × Bytes × Bytes × D
  get_token user_data (some get) block user d =
      if not (user_data && is_given block && is_given user)
      then (hm_invalid_parameter, [], [], d)
      else get d (contents block) (contents user)
  get_token user_data none block user d = (hm_invalid_parameter, [], [], d)

  -- The common text of the two deletions: the owner must have a write token. `checked` tells whether
  -- the getter that the guard names is there; the getter that is called is the write token's.
  unfoldable pub del_token :
      Bool
      → (checked : Bool) → Option (GetToken D)
      → Option (DelToken D)
      → Option Bytes
      → Option Bytes
      → Option Bytes
      → D
      → Option (Status × D)
  del_token user_data checked get_wtoken none block user owner d = some (hm_invalid_parameter, d)
  del_token user_data checked get_wtoken (some del) block user owner d =
      if not (user_data && checked && is_given block && is_given user && is_given owner)
      then some (hm_invalid_parameter, d)
      else elim get_wtoken [
        | none ↦ none
        | some get ↦
            let test = get d (contents block) (contents owner) in
            if not (test.0 == hm_success)
            then some (hm_fail, test.3)
            else some (del test.3 (contents block) (contents user) (contents owner))
      ]

  module _ (db : Db D) where
    unfoldable pub set_rtoken :
        Option Bytes → Option Bytes → Option Bytes → Option Bytes → D → Status × D
    set_rtoken = set_token db.user_data db.get_rtoken db.set_rtoken

    unfoldable pub set_wtoken :
        Option Bytes → Option Bytes → Option Bytes → Option Bytes → D → Status × D
    set_wtoken = set_token db.user_data db.get_wtoken db.set_wtoken

    unfoldable pub get_rtoken : Option Bytes → Option Bytes → D → Status × Bytes × Bytes × D
    get_rtoken = get_token db.user_data db.get_rtoken

    unfoldable pub get_wtoken : Option Bytes → Option Bytes → D → Status × Bytes × Bytes × D
    get_wtoken = get_token db.user_data db.get_wtoken

    unfoldable pub del_rtoken : Option Bytes → Option Bytes → Option Bytes → D → Option (Status × D)
    del_rtoken = del_token db.user_data (is_there db.get_rtoken) db.get_wtoken db.del_rtoken

    unfoldable pub del_wtoken : Option Bytes → Option Bytes → Option Bytes → D → Option (Status × D)
    del_wtoken = del_token db.user_data (is_there db.get_wtoken) db.get_wtoken db.del_wtoken

    -- The guard names two functions that are not the one called.
    unfoldable pub get_indexed_rights : Option Bytes → ℕ → D → Option (Status × Bytes × ℕ × D)
    get_indexed_rights block index d =
        if not (db.user_data && is_there db.get_wtoken && is_there db.del_wtoken && is_given block)
        then some (hm_invalid_parameter, [], 0, d)
        else elim db.get_indexed_rights [
          | none ↦ none
          | some get ↦ some (get d (contents block) index)
        ]
