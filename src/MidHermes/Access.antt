-- ===== src/MidHermes/Access.antt =====
-- Who can read and update a block, by the views of the stores: the abstract state that the operations
-- of src/mid_hermes/mid_hermes.c are specified against.
use hermes_core.Prelude.{◌≡◌, false, Option, none, some, is_empty}
use hermes_core.Common.Bytes.{Bytes}
use hermes_core.Common.Status.{hm_success}
use hermes_core.MidHermes.{MidHermes}
use hermes_core.MidHermesLl.Stores.{World, KeyStoreOps, DataStoreOps, CredentialStoreOps}
use hermes_core.MidHermesLl.Stores.Laws.{
  Tokens, Blocks, KeyStoreLaws, DataStoreLaws, CredentialStoreLaws,
}
use hermes_core.MidHermesLl.User.{User}
use hermes_core.MidHermesLl.Run.{done}
use hermes_core.MidHermesLl.Utils.{Themis, hm_decrypt, hm_mac_create, hm_asym_decrypt}
use hermes_core.MidHermesLl.Utils.Laws.{ThemisLaws}

-- The library and the three stores.
pub record Services (R H K I D C : Type 0) : Type 0 where
  pub th : Themis R H
  pub ks : KeyStoreOps K I
  pub ds : DataStoreOps D
  pub cs : CredentialStoreOps C

-- What they promise, by their views.
pub record Promises {R H K I D C : Type 0} (s : Services R H K I D C) : Type 1 where
  pub Pair : Bytes → Bytes → Type 0
  pub reads : K → Tokens
  pub writes : K → Tokens
  pub blocks : D → Blocks
  pub keys : C → Bytes → Option Bytes
  pub themis_laws : ThemisLaws s.th Pair
  pub key_laws : KeyStoreLaws s.ks reads writes
  pub data_laws : DataStoreLaws s.ds blocks
  pub credential_laws : CredentialStoreLaws s.cs keys

-- A user with keys.
pub record Account : Type 0 where
  pub id : Bytes
  pub sk : Bytes
  pub pk : Bytes

abbrev pub user_of : Account → User
user_of a = record { id = some a.id; sk = some (some a.sk); pk = some a.pk }

abbrev pub hermes_of : {R H K I D C : Type 0} → Services R H K I D C → Account → MidHermes K I D C
hermes_of s a = record { ks = some s.ks; cs = some s.cs; ds = some s.ds; user = user_of a }

module _ {R H K I D C : Type 0} {s : Services R H K I D C} (p : Promises s) where
  -- The keys are a pair, and the public one is registered.
  pub record IsMember (c : C) (a : Account) : Type 0 where
    pub id_full : is_empty a.id ≡ false
    pub sk_full : is_empty a.sk ≡ false
    pub pk_full : is_empty a.pk ≡ false
    pub paired : p.Pair a.sk a.pk
    pub known : p.keys c a.id ≡ some a.pk

  -- The user has a token that opens, with the registered key of its owner, to `key`.
  pub record Holds (tokens : Tokens) (c : C) (a : Account) (block key : Bytes) : Type 0 where
    pub token : Bytes
    pub owner : Bytes
    pub owner_pk : Bytes
    pub stored : tokens block a.id ≡ some (token, owner)
    pub owner_full : is_empty owner ≡ false
    pub owner_pk_full : is_empty owner_pk ≡ false
    pub owner_known : p.keys c owner ≡ some owner_pk
    pub opens :
        hm_asym_decrypt s.th (some a.sk) (some owner_pk) (some token) ≡ done (hm_success, some key)

  -- A block's stored form opens under `key` to the bytes with the meta.
  pub record Opens (d : D) (block key bytes meta : Bytes) : Type 0 where
    pub cipher : Bytes
    pub mac : Bytes
    pub stored : p.blocks d block ≡ some (cipher, meta, mac)
    pub opens : hm_decrypt s.th (some key) (some cipher) (some meta) ≡ (hm_success, some bytes)

  -- A write token that works, or none.
  pub data Writing (w : World R K D C) (a : Account) (block bytes meta : Bytes) : Type 0 where
    without : p.writes w.ks block a.id ≡ none → Writing w a block bytes meta
    with_key :
        (key mac : Bytes)
        → Holds (p.writes w.ks) w.cs a block key
        → hm_mac_create s.th (some key) (some bytes) (some meta) ≡ (hm_success, some mac)
        → Writing w a block bytes meta

  -- The user can read the block, and gets the bytes with the meta.
  pub record CanRead (w : World R K D C) (a : Account) (block bytes meta : Bytes) : Type 0 where
    pub key : Bytes
    pub reading : Holds (p.reads w.ks) w.cs a block key
    pub stored : Opens w.ds block key bytes meta
    pub writing : Writing w a block bytes meta

  -- The user can read and update the block.
  pub record CanUpdate (w : World R K D C) (a : Account) (block bytes meta : Bytes) : Type 0 where
    pub reads : CanRead w a block bytes meta
    pub key : Bytes
    pub mac : Bytes
    pub holding : Holds (p.writes w.ks) w.cs a block key
    pub made : hm_mac_create s.th (some key) (some bytes) (some meta) ≡ (hm_success, some mac)

  -- The stores show the same.
  pub record SameViews (w w' : World R K D C) : Type 0 where
    pub same_reads : p.reads w'.ks ≡ p.reads w.ks
    pub same_writes : p.writes w'.ks ≡ p.writes w.ks
    pub same_blocks : p.blocks w'.ds ≡ p.blocks w.ds
    pub same_keys : p.keys w'.cs ≡ p.keys w.cs
