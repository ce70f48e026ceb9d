-- ===== src/MidHermesLl/Block/Stored/Safety.antt =====
-- That loading and saving a block (src/mid_hermes_ll/mid_hermes_ll_block.c) does not crash.
use hermes_core.Prelude.{◌≡◌, refl, Bool, true, false, Option, none, some}
use hermes_core.MidHermesLl.Block.{Block, block_create_empty, block_init}
use hermes_core.MidHermesLl.Block.Safety.{IsWhole, IsLoaded, init_read-Gives}
use hermes_core.MidHermesLl.Block.Rights.{RightsNode}
use hermes_core.MidHermesLl.Block.Rights.Safety.{EachOwned, one_more}
use hermes_core.MidHermesLl.Run.{Run}
use hermes_core.Common.Status.{Status}
use hermes_core.Prelude.{List, [], ◌∷◌}
use hermes_core.MidHermesLl.Block.Stored.{
  if_given, each_right, saved_rights, deleted_rights, rtoken_delete, wtoken_delete, removed_data,
  removed_token, block_delete, token_load, block_load, rtoken_save, wtoken_save, saved_data,
  saved_tokens, block_save,
}
use hermes_core.MidHermesLl.Run.Safe.{
  Gives, IfThere, a_value, Anything, anything, bind-Gives, tested-Gives, followed-Gives, pure-Gives,
  or_null-Gives, guard-Gives, succeeded-Gives, on_keys-Gives, on_blocks-Gives, on_credentials-Gives,
}
use hermes_core.MidHermesLl.Stores.{World, KeyStoreOps, DataStoreOps, CredentialStoreOps}
use hermes_core.MidHermesLl.Token.{Token}
use hermes_core.MidHermesLl.Token.Safety.{
  HasOwner, owned_of, IsUsable, token_create-IsUsable, or_fail-Gives,
}
use hermes_core.MidHermesLl.User.{User, Buffer}
use hermes_core.MidHermesLl.User.Laws.{IsLocal, user_copy-IsLocal}
use hermes_core.MidHermesLl.Utils.{Themis}
use hermes_core.MidHermesLl.Utils.Laws.{NoneDamaged}

module _ {R K I D C : Type 0} (ks : Option (KeyStoreOps K I))
    (cs : Option (CredentialStoreOps C)) where
  pub token_load-Gives :
      (user : Option User) (id : Option Buffer) (is_update : Bool)
      → IfThere IsLocal user
      → Gives {W = World R K D C} IsUsable (token_load ks cs user id is_update)
  unfolding token_load
  token_load-Gives user id is_update l = bind-Gives (tested-Gives l) λ u h.
      bind-Gives (tested-Gives (anything _)) λ i _. bind-Gives (tested-Gives (anything _)) λ k _.
        bind-Gives (tested-Gives (anything _)) λ c _. bind-Gives (on_keys-Gives _) λ got _.
          bind-Gives (succeeded-Gives _) λ _ _. bind-Gives (on_credentials-Gives _) λ key _.
            bind-Gives (succeeded-Gives _) λ _ _.
              bind-Gives (tested-Gives (anything _))
                λ owner _. tested-Gives (token_create-IsUsable u owner _ h)

  pub block_load-Gives :
      {H : Type 0} (th : Themis R H) (whole : NoneDamaged th) (user : User) (id : Option Buffer)
      (ds : Option (DataStoreOps D))
      → IsLocal user
      → Gives {W = World R K D C} IsLoaded (block_load th (block_create_empty user) id ds ks cs)
  unfolding block_load block_create_empty block_init
  block_load-Gives th whole user id ds l = bind-Gives (tested-Gives (anything _)) λ i _.
      bind-Gives (tested-Gives (anything _)) λ d _. bind-Gives (guard-Gives _) λ _ _.
        bind-Gives (or_null-Gives (token_load-Gives _ _ false (user_copy-IsLocal user l))) λ r hr.
          bind-Gives (or_null-Gives (token_load-Gives _ _ true (user_copy-IsLocal user l)))
            λ wtoken hw. bind-Gives (tested-Gives hr) λ rtoken hr'.
              bind-Gives (on_blocks-Gives _) λ got _.
                bind-Gives (succeeded-Gives _)
                  λ _ _. init_read-Gives th whole user i _ _ rtoken wtoken l hr' hw

-- The block has an id, or a data store gives it one.
pub data GetsId {D : Type 0} (bl : Block) : Option (DataStoreOps D) → Type 0 where
  own_id : {ds : Option (DataStoreOps D)} (id : Buffer) → bl.id ≡ some id → GetsId bl ds
  new_id : (ds : DataStoreOps D) → GetsId bl (some ds)

-- A block with an id, of which the tokens can be opened.
record IsIdentified (bl : Block) : Type 0 where
  id : Buffer
  has_id : bl.id ≡ some id
  readable : IfThere IsUsable bl.rtoken
  writable : IfThere IsUsable bl.wtoken

module _ {R K D C : Type 0} where
  removed_data-Gives :
      (id mac : Buffer) (ds : Option (DataStoreOps D))
      → Gives {W = World R K D C} Anything (removed_data id mac ds)
  removed_data-Gives id mac none = pure-Gives _ tt
  removed_data-Gives id mac (some ds) = bind-Gives (on_blocks-Gives _) λ status _. succeeded-Gives _

  saved_data-Gives :
      (bl : Block) (ds : Option (DataStoreOps D))
      → IsWhole bl
      → GetsId bl ds
      → Gives {W = World R K D C} IsIdentified (saved_data bl ds)
  saved_data-Gives bl none h (own_id id e) =
      pure-Gives _
        (record { id = id; has_id = e; readable = h.sound.readable; writable = h.sound.writable })
  saved_data-Gives bl (some ds) h g = bind-Gives (followed-Gives h.has_block) λ block _.
      bind-Gives (followed-Gives h.has_meta) λ meta _.
        bind-Gives (followed-Gives h.has_mac) λ mac _. bind-Gives (on_blocks-Gives _) λ made _.
          bind-Gives (succeeded-Gives _) λ _ _. pure-Gives _ (record {
            id = _;
            has_id = refl;
            readable = h.sound.readable;
            writable = h.sound.writable;
          })

module _ {R K I D C : Type 0} where
  rtoken_save-Gives :
      (bl : Block) (id : Buffer) (o : Option Token) (ks : Option (KeyStoreOps K I))
      → bl.id ≡ some id
      → IfThere HasOwner o
      → Gives {W = World R K D C} Anything (rtoken_save bl o ks)
  unfolding rtoken_save
  rtoken_save-Gives bl id none ks e h = pure-Gives _ tt
  rtoken_save-Gives bl id (some t) ks e (a_value _ h) = or_fail-Gives ks _ λ k.
      bind-Gives (followed-Gives e)
        λ i _. bind-Gives (followed-Gives h.has_owner) λ owner _. on_keys-Gives _

  wtoken_save-Gives :
      (bl : Block) (id : Buffer) (o : Option Token) (ks : Option (KeyStoreOps K I))
      → bl.id ≡ some id
      → IfThere HasOwner o
      → Gives {W = World R K D C} Anything (wtoken_save bl o ks)
  unfolding wtoken_save
  wtoken_save-Gives bl id none ks e h = pure-Gives _ tt
  wtoken_save-Gives bl id (some t) ks e (a_value _ h) = or_fail-Gives ks _ λ k.
      bind-Gives (followed-Gives e)
        λ i _. bind-Gives (followed-Gives h.has_owner) λ owner _. on_keys-Gives _

  saved_tokens-Gives :
      (bl : Block) (ks : Option (KeyStoreOps K I))
      → IsIdentified bl
      → Gives {W = World R K D C} Anything (saved_tokens bl ks)
  saved_tokens-Gives bl none h = pure-Gives _ tt
  saved_tokens-Gives bl (some ks) h =
      bind-Gives (rtoken_save-Gives bl _ _ _ h.has_id (owned_of _ h.readable)) λ read _.
        bind-Gives (succeeded-Gives _) λ _ _.
          bind-Gives (wtoken_save-Gives bl _ _ _ h.has_id (owned_of _ h.writable))
            λ write _. succeeded-Gives _

  if_given-Gives :
      (f : Block → Option Token → Option (KeyStoreOps K I) → Run (World R K D C) Status)
      (bl : Block) (o : Option Token) (ks : KeyStoreOps K I)
      → IfThere HasOwner o
      → ((t : Option Token) → IfThere HasOwner t → Gives Anything (f bl t (some ks)))
      → Gives Anything (if_given f bl o ks)
  if_given-Gives f bl none ks h g = pure-Gives _ tt
  if_given-Gives f bl (some t) ks h g = bind-Gives (g (some t) h) λ status _. succeeded-Gives _

  saved_rights-Gives :
      (bl : Block) (id : Buffer) (rights : List RightsNode) (ks : KeyStoreOps K I)
      → bl.id ≡ some id
      → EachOwned rights
      → Gives {W = World R K D C} Anything (saved_rights bl rights ks)
  unfolding saved_rights
  saved_rights-Gives bl id [] ks e h = pure-Gives _ tt
  saved_rights-Gives bl id (node ∷ rights) ks e (one_more _ _ owned h) =
      bind-Gives (rtoken_save-Gives bl id _ (some ks) e (a_value _ owned.rtoken_owned)) λ status _.
        bind-Gives (succeeded-Gives _) λ _ _.
          bind-Gives
            (if_given-Gives wtoken_save bl node.wtoken ks owned.wtoken_owned
              λ t o. wtoken_save-Gives bl id t (some ks) e o)
            λ _ _. saved_rights-Gives bl id rights ks e h

  each_right-Gives :
      (f : List RightsNode → KeyStoreOps K I → Run (World R K D C) (Unit {0}))
      (rights : Option (List RightsNode)) (ks : Option (KeyStoreOps K I))
      → IfThere EachOwned rights
      → ((nodes : List RightsNode)
          → (s : KeyStoreOps K I) → EachOwned nodes
          → Gives Anything (f nodes s))
      → Gives Anything (each_right f rights ks)
  each_right-Gives f none ks h g = pure-Gives _ tt
  each_right-Gives f (some nodes) none h g = pure-Gives _ tt
  each_right-Gives f (some nodes) (some s) (a_value _ h) g = g nodes s h

  pub block_save-Gives :
      (bl : Block) (rights : Option (List RightsNode)) (ds : Option (DataStoreOps D))
      (ks : Option (KeyStoreOps K I))
      → IsWhole bl
      → GetsId bl ds
      → IfThere EachOwned rights
      → Gives {W = World R K D C} Anything (block_save bl rights ds ks)
  unfolding block_save
  block_save-Gives bl rights ds ks h g owned = bind-Gives (guard-Gives _) λ _ _.
      bind-Gives (saved_data-Gives bl ds h g) λ saved i.
        bind-Gives (saved_tokens-Gives saved ks i) λ _ _.
          bind-Gives
            (each_right-Gives (saved_rights saved) rights ks owned
              λ nodes s o. saved_rights-Gives saved i.id nodes s i.has_id o)
            λ _ _. pure-Gives _ tt

  rtoken_delete-Gives :
      (bl : Block) (id : Buffer) (o : Option Token) (ks : Option (KeyStoreOps K I))
      → bl.id ≡ some id
      → Gives {W = World R K D C} Anything (rtoken_delete bl o ks)
  unfolding rtoken_delete
  rtoken_delete-Gives bl id none ks e = pure-Gives _ tt
  rtoken_delete-Gives bl id (some t) ks e =
      or_fail-Gives ks _ λ k. bind-Gives (followed-Gives e) λ i _. on_keys-Gives _

  wtoken_delete-Gives :
      (bl : Block) (id : Buffer) (o : Option Token) (ks : Option (KeyStoreOps K I))
      → bl.id ≡ some id
      → IfThere HasOwner o
      → Gives {W = World R K D C} Anything (wtoken_delete bl o ks)
  unfolding wtoken_delete
  wtoken_delete-Gives bl id none ks e h = pure-Gives _ tt
  wtoken_delete-Gives bl id (some t) ks e (a_value _ h) = or_fail-Gives ks _ λ k.
      bind-Gives (followed-Gives e)
        λ i _. bind-Gives (followed-Gives h.has_owner) λ owner _. on_keys-Gives _

  deleted_rights-Gives :
      (bl : Block) (id : Buffer) (rights : List RightsNode) (ks : KeyStoreOps K I)
      → bl.id ≡ some id
      → EachOwned rights
      → Gives {W = World R K D C} Anything (deleted_rights bl rights ks)
  unfolding deleted_rights
  deleted_rights-Gives bl id [] ks e h = pure-Gives _ tt
  deleted_rights-Gives bl id (node ∷ rights) ks e (one_more _ _ owned h) =
      bind-Gives (rtoken_delete-Gives bl id _ (some ks) e) λ status _.
        bind-Gives (succeeded-Gives _) λ _ _.
          bind-Gives
            (if_given-Gives wtoken_delete bl node.wtoken ks owned.wtoken_owned
              λ t o. wtoken_delete-Gives bl id t (some ks) e o)
            λ _ _. deleted_rights-Gives bl id rights ks e h

  removed_token-Gives :
      (bl : Block) (id : Buffer) (ks : Option (KeyStoreOps K I))
      → bl.id ≡ some id
      → Gives {W = World R K D C} Anything (removed_token bl ks)
  removed_token-Gives bl id none e = pure-Gives _ tt
  removed_token-Gives bl id (some ks) e =
      bind-Gives (rtoken_delete-Gives bl id _ (some ks) e) λ status _. succeeded-Gives _

  pub block_delete-Gives :
      (bl : Block) (rights : Option (List RightsNode)) (ds : Option (DataStoreOps D))
      (ks : Option (KeyStoreOps K I))
      → IsLoaded bl
      → IfThere EachOwned rights
      → Gives {W = World R K D C} Anything (block_delete bl rights ds ks)
  unfolding block_delete
  block_delete-Gives bl rights ds ks h owned = bind-Gives (tested-Gives (anything bl.id)) λ id _.
      bind-Gives (tested-Gives (anything bl.mac)) λ mac _. bind-Gives (guard-Gives _) λ _ _.
        bind-Gives (removed_data-Gives _ _ ds) λ _ _.
          bind-Gives (removed_token-Gives bl h.id ks h.has_id) λ _ _.
            bind-Gives
              (each_right-Gives (deleted_rights bl) rights ks owned
                λ nodes s o. deleted_rights-Gives bl h.id nodes s h.has_id o)
              λ _ _. pure-Gives _ tt
