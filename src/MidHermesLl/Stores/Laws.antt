-- ===== src/MidHermesLl/Stores/Laws.antt =====
-- What the stores behind the interfaces promise, by views of their states: the tokens of the key store
-- by block and user, with their owners, the blocks of the data store by id, with meta and MAC, and the
-- public keys of the credential store by user. A found or a missing entry is answered as such, and
-- asking changes no view; a setting that succeeds changes its own entry only.
use hermes_core.Prelude.{
  ◌≡◌, ◌≢◌, refl, inl, inr, arith, Bool-cases, true, false, ◌&&◌, Option, none, some, if◌then◌else◌,
  is_empty, ◌==◌,
}
use hermes_core.Common.Bytes.{Bytes}
use hermes_core.Common.Status.{Status, hm_success}
use hermes_core.KeyStore.{same_id}
use hermes_core.KeyStore.SameId.{same_id_iff}
use hermes_core.MidHermesLl.Stores.{KeyStoreOps, DataStoreOps, CredentialStoreOps}

-- The tokens of a key store: the block's id, the user's id; the token and its owner's id.
abbrev pub Tokens : Type 0
Tokens = Bytes → Bytes → Option (Bytes × Bytes)

abbrev pub token_at : Tokens → Bytes → Bytes → Option (Bytes × Bytes) → Tokens
token_at tokens block user entry b u =
    if same_id block b && same_id user u then entry else tokens b u

-- The blocks of a data store: the encrypted data, the meta and the MAC.
abbrev pub Blocks : Type 0
Blocks = Bytes → Option (Bytes × Bytes × Bytes)

abbrev pub block_at : Blocks → Bytes → Option (Bytes × Bytes × Bytes) → Blocks
block_at blocks id entry j = if same_id id j then entry else blocks j

module _ {K : Type 0} (view other : K → Tokens) where
  -- A getter of the tokens that `view` shows.
  pub record FindsToken (get : Option Bytes → Option Bytes → K → (Status × Bytes × Bytes) × K)
      : Type 0 where
    pub found :
        (k : K) (block user token owner : Bytes)
        → view k block user ≡ some (token, owner)
        → (k' : K) × (get (some user) (some block) k ≡ ((hm_success, token, owner), k'))
          × (view k' ≡ view k)
          × (other k' ≡ other k)
    pub missing :
        (k : K) (block user : Bytes)
        → view k block user ≡ none
        → (status : Status) × (token : Bytes) × (owner : Bytes) × (k' : K) × (get
              (some user)
              (some block)
              k
            ≡ ((status, token, owner), k'))
          × ((status == hm_success) ≡ false)
          × (view k' ≡ view k)
          × (other k' ≡ other k)

  -- A setter of the tokens that `view` shows, which deletes where no token is given.
  pub record SetsToken
      (set : Option Bytes → Option Bytes → Option Bytes → Option Bytes → K → Status × K)
      : Type 0 where
    pub stored :
        (k k' : K) (block user token owner : Bytes)
        → is_empty token ≡ false
        → set (some user) (some block) (some token) (some owner) k ≡ (hm_success, k')
        → (view k' ≡ token_at (view k) block user (some (token, owner))) × (other k' ≡ other k)
    pub deleted :
        (k k' : K) (block user owner : Bytes)
        → set (some user) (some block) none (some owner) k ≡ (hm_success, k')
        → (view k' ≡ token_at (view k) block user none) × (other k' ≡ other k)

pub record KeyStoreLaws {K I : Type 0} (ks : KeyStoreOps K I) (reads writes : K → Tokens)
    : Type 0 where
  pub finds_rtoken : FindsToken reads writes ks.get_rtoken
  pub finds_wtoken : FindsToken writes reads ks.get_wtoken
  pub sets_rtoken : SetsToken reads writes ks.set_rtoken
  pub sets_wtoken : SetsToken writes reads ks.set_wtoken

pub record DataStoreLaws {D : Type 0} (ds : DataStoreOps D) (blocks : D → Blocks) : Type 0 where
  pub found :
      (d : D) (id block meta mac : Bytes)
      → blocks d id ≡ some (block, meta, mac)
      → (d' : D) × (ds.get_block (some id) d ≡ ((hm_success, block, meta), d'))
        × (blocks d' ≡ blocks d)
  -- The id is the caller's, if there is one.
  pub stored :
      (d d' : D) (id old_mac id' : Option Bytes) (block meta mac : Bytes)
      → ds.set_block id (some block) (some meta) (some mac) old_mac d ≡ ((hm_success, id'), d')
      → (i : Bytes) × (id' ≡ some i)
        × (is_empty i ≡ false)
        × (blocks d' ≡ block_at (blocks d) i (some (block, meta, mac)))
        × ((j : Bytes) → id ≡ some j → i ≡ j)

pub record CredentialStoreLaws {C : Type 0} (cs : CredentialStoreOps C)
    (keys : C → Bytes → Option Bytes) : Type 0 where
  pub found :
      (c : C) (user key : Bytes)
      → keys c user ≡ some key
      → (c' : C) × (cs.get_public_key (some user) c ≡ ((hm_success, key), c')) × (keys c' ≡ keys c)
  pub missing :
      (c : C) (user : Bytes)
      → keys c user ≡ none
      → (status : Status) × (key : Bytes) × (c' : C) × (cs.get_public_key (some user) c
          ≡ ((status, key), c'))
        × ((status == hm_success) ≡ false)
        × (keys c' ≡ keys c)

pub same_id_self : (id : Bytes) → same_id id id ≡ true
same_id_self id = (same_id_iff id id).1 refl

pub token_at_self :
    (tokens : Tokens) (block user : Bytes) (entry : Option (Bytes × Bytes))
    → token_at tokens block user entry block user ≡ entry
token_at_self tokens block user entry = rw (same_id_self block, same_id_self user) refl

pub block_at_self :
    (blocks : Blocks) (id : Bytes) (entry : Option (Bytes × Bytes × Bytes))
    → block_at blocks id entry id ≡ entry
block_at_self blocks id entry = rw same_id_self refl

-- Another user's entry stays.
pub token_at_other :
    (tokens : Tokens) (block user other b : Bytes) (entry : Option (Bytes × Bytes))
    → user ≢ other
    → token_at tokens block user entry b other ≡ tokens b other
token_at_other tokens block user other b entry ne = elim (Bool-cases (same_id user other)) [
  | inl e ↦ absurd (ne ((same_id_iff user other).0 e))
  | inr e ↦ ground (arith, e)
]
