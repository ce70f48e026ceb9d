-- ===== src/MidHermesLl/Block/Safety.antt =====
-- That the functions of src/mid_hermes_ll/mid_hermes_ll_block.c do not crash on a block whose tokens can
-- be opened.
use hermes_core.Prelude.{◌≡◌, refl, Option, none, some}
use hermes_core.MidHermesLl.Block.{
  Block, or_else, sealed, mac_of, block_create_empty, encrypted_new, init_new, init_mac, init_read,
  block_init, block_create, block_update, block_rtoken_for, block_wtoken_for,
}
use hermes_core.MidHermesLl.Run.Safe.{
  Gives, IfThere, a_value, Anything, anything, bind-Gives, tested-Gives, pure-Gives, or_null-Gives,
  succeeded-Gives, on_rng-Gives,
}
use hermes_core.MidHermesLl.Stores.{World}
use hermes_core.MidHermesLl.Token.{Token}
use hermes_core.MidHermesLl.Token.Safety.{
  HasOwner, IsUsable, token_generate-Gives, token_get_data-Gives, token_get_token_for_user-Gives,
}
use hermes_core.MidHermesLl.User.{User, Buffer}
use hermes_core.MidHermesLl.User.Laws.{IsLocal, user_copy-IsLocal}
use hermes_core.MidHermesLl.Utils.{Themis}
use hermes_core.MidHermesLl.Utils.Laws.{NoneDamaged}

-- The tokens that a block has can be opened, and its user has a private key.
pub record IsSound (bl : Block) : Type 0 where
  pub local : IsLocal bl.user
  pub readable : IfThere IsUsable bl.rtoken
  pub writable : IfThere IsUsable bl.wtoken

-- A block that can be saved: it has an id, its encrypted form, its meta and its MAC too.
pub record IsWhole (bl : Block) : Type 0 where
  pub sound : IsSound bl
  pub cipher : Buffer
  pub meta : Buffer
  pub mac : Buffer
  pub has_block : bl.block ≡ some cipher
  pub has_meta : bl.meta ≡ some meta
  pub has_mac : bl.mac ≡ some mac

-- A block as it is loaded, with its id.
pub record IsLoaded (bl : Block) : Type 0 where
  pub sound : IsSound bl
  pub id : Buffer
  pub bytes : Buffer
  pub meta : Buffer
  pub has_id : bl.id ≡ some id
  pub has_bytes : bl.bytes ≡ some bytes
  pub has_meta : bl.meta ≡ some meta

-- A block that can be saved, with its id.
pub record IsUpdated (bl : Block) : Type 0 where
  pub whole : IsWhole bl
  pub id : Buffer
  pub has_id : bl.id ≡ some id

or_else-Gives : (o : Option Token) → IfThere IsUsable o → IfThere IsUsable (or_else o none)
or_else-Gives none h = h
or_else-Gives (some t) h = h

module _ {R H K D C : Type 0} (th : Themis R H) (whole : NoneDamaged th) where
  pub sealed-Gives :
      (key bytes meta : Buffer) → Gives {W = World R K D C} Anything (sealed th key bytes meta)
  unfolding sealed
  sealed-Gives key bytes meta =
      bind-Gives (on_rng-Gives _) λ made _. bind-Gives (succeeded-Gives _) λ _ _. pure-Gives _ tt

  pub mac_of-Gives :
      (key bytes meta : Buffer) → Gives {W = World R K D C} Anything (mac_of th key bytes meta)
  unfolding mac_of
  mac_of-Gives key bytes meta = bind-Gives (succeeded-Gives _) λ _ _. pure-Gives _ tt

  encrypted_new-Gives :
      (user : User) (id : Option Buffer) (bytes meta : Buffer) (rtoken wtoken : Token)
      → IsLocal user
      → IsUsable rtoken
      → IsUsable wtoken
      → Gives {W = World R K D C} IsWhole
          (encrypted_new th (block_create_empty user) user id bytes meta none rtoken wtoken)
  unfolding encrypted_new
  encrypted_new-Gives user id bytes meta rtoken wtoken l hr hw =
      bind-Gives (token_get_data-Gives th whole (some rtoken) (a_value rtoken hr)) λ rt _.
        bind-Gives (sealed-Gives _ _ _) λ block _.
          bind-Gives (token_get_data-Gives th whole (some wtoken) (a_value wtoken hw)) λ wt _.
            bind-Gives (mac_of-Gives _ _ _) λ mac _. pure-Gives _ (record {
              sound = record { local = l; readable = a_value _ hr; writable = a_value _ hw };
              cipher = _;
              meta = _;
              mac = _;
              has_block = refl;
              has_meta = refl;
              has_mac = refl;
            })

  pub block_create-Gives :
      (user : User) (id : Option Buffer) (bytes meta : Buffer)
      → IsLocal user
      → Gives {W = World R K D C} IsWhole (block_create th user id bytes meta none none)
  unfolding block_create block_init init_new
  block_create-Gives user id bytes meta l =
      bind-Gives (or_null-Gives (token_generate-Gives th whole _ (user_copy-IsLocal user l)))
        λ r hr.
          bind-Gives (or_null-Gives (token_generate-Gives th whole _ (user_copy-IsLocal user l)))
            λ w hw. bind-Gives (tested-Gives hr) λ rtoken hr'.
              bind-Gives (tested-Gives hw)
                λ wtoken hw'. encrypted_new-Gives user id bytes meta rtoken wtoken l hr' hw'

  init_mac-Gives :
      (wtoken : Option Token) (mac : Option Buffer) (bytes meta : Buffer)
      → IfThere IsUsable wtoken
      → Gives {W = World R K D C} Anything (init_mac th wtoken mac bytes meta)
  unfolding init_mac
  init_mac-Gives none mac bytes meta h = pure-Gives _ tt
  init_mac-Gives (some wtoken) mac bytes meta (a_value _ h) =
      bind-Gives (token_get_data-Gives th whole (some wtoken) (a_value wtoken h))
        λ wt _. bind-Gives (mac_of-Gives _ _ _) λ made _. pure-Gives _ tt

  pub init_read-Gives :
      (user : User) (id : Buffer) (bytes meta : Buffer) (rtoken : Token) (wtoken : Option Token)
      → IsLocal user
      → IsUsable rtoken
      → IfThere IsUsable wtoken
      → Gives {W = World R K D C} IsLoaded
          (init_read th (block_create_empty user) user (some id) bytes meta rtoken wtoken)
  unfolding init_read block_create_empty
  init_read-Gives user id bytes meta rtoken wtoken l hr hw =
      bind-Gives (token_get_data-Gives th whole (some rtoken) (a_value rtoken hr)) λ rt _.
        bind-Gives (succeeded-Gives _) λ _ _.
          bind-Gives (init_mac-Gives _ _ _ _ (or_else-Gives wtoken hw)) λ mac _.
            pure-Gives _ (record {
              sound = record { local = l; readable = a_value _ hr; writable = hw };
              id = id;
              bytes = _;
              meta = _;
              has_bytes = refl;
              has_meta = refl;
              has_id = refl;
            })

  -- Updating a block that was loaded leaves one that can be saved.
  pub block_update-Gives :
      (bl : Block) (bytes meta : Option Buffer)
      → IsLoaded bl
      → Gives {W = World R K D C} IsUpdated (block_update th bl bytes meta)
  unfolding block_update
  block_update-Gives bl bytes meta h = bind-Gives (tested-Gives (anything _)) λ b _.
      bind-Gives (tested-Gives (anything _)) λ m _.
        bind-Gives (tested-Gives h.sound.readable) λ rtoken hr.
          bind-Gives (tested-Gives h.sound.writable) λ wtoken hw.
            bind-Gives
              (or_null-Gives (token_get_data-Gives th whole (some rtoken) (a_value rtoken hr)))
              λ r _.
                bind-Gives
                  (or_null-Gives (token_get_data-Gives th whole (some wtoken) (a_value wtoken hw)))
                  λ w _. bind-Gives (tested-Gives (anything _)) λ rt _.
                    bind-Gives (tested-Gives (anything _)) λ wt _.
                      bind-Gives (sealed-Gives _ _ _) λ block _.
                        bind-Gives (mac_of-Gives _ _ _) λ mac _. pure-Gives _ (record {
                          whole = record {
                            sound = record {
                              local = h.sound.local;
                              readable = h.sound.readable;
                              writable = h.sound.writable;
                            };
                            cipher = _;
                            meta = _;
                            mac = _;
                            has_block = refl;
                            has_meta = refl;
                            has_mac = refl;
                          };
                          id = h.id;
                          has_id = h.has_id;
                        })

  pub block_rtoken_for-Gives :
      (bl : Block) (user : User)
      → IsSound bl
      → Gives {W = World R K D C} HasOwner (block_rtoken_for th bl (some user))
  unfolding block_rtoken_for
  block_rtoken_for-Gives bl user h = bind-Gives (tested-Gives h.readable) λ rtoken hr.
      bind-Gives (tested-Gives (anything _))
        λ u _. token_get_token_for_user-Gives th whole rtoken (some u) hr

  pub block_wtoken_for-Gives :
      (bl : Block) (user : User)
      → IsSound bl
      → Gives {W = World R K D C} HasOwner (block_wtoken_for th bl (some user))
  unfolding block_wtoken_for
  block_wtoken_for-Gives bl user h = bind-Gives (tested-Gives h.writable) λ wtoken hw.
      bind-Gives (tested-Gives (anything _))
        λ u _. token_get_token_for_user-Gives th whole wtoken (some u) hw
