-- ===== src/MidHermes/Loading.antt =====
-- Loading tokens and blocks (src/mid_hermes_ll/mid_hermes_ll_block.c) for a user who can read.
use hermes_core.Prelude.{◌≡◌, ◌∙◌, refl, Bool, true, false, Option, none, some, is_empty}
use hermes_core.Common.Bytes.{Bytes}
use hermes_core.Common.Status.{hm_success}
use hermes_core.MidHermes.Access.{
  Services, Promises, Account, user_of, IsMember, Holds, without, with_key, CanRead, SameViews,
}
use hermes_core.MidHermesLl.Block.{
  Block, block_create_empty, block_init, init_read, init_mac, mac_of,
}
use hermes_core.MidHermesLl.Block.Stored.{token_load, block_load}
use hermes_core.MidHermesLl.Run.{
  lift, done, null, pure, guard, or_null, ◌>>=◌, tested, followed, succeeded,
}
use hermes_core.MidHermesLl.Stores.{World, on_keys, on_blocks, on_credentials}
use hermes_core.MidHermesLl.Stores.Laws.{Tokens, FindsToken}
use hermes_core.MidHermesLl.Token.{Token, get_token, token_create, token_get_data}
use hermes_core.MidHermesLl.User.{buffer_is_empty, user_create, user_create_c, user_copy}
use hermes_core.MidHermesLl.Utils.{hm_mac_create}

-- A user that was copied is the user.
pub user_copy_of :
    (a : Account)
    → is_empty a.id ≡ false
    → is_empty a.pk ≡ false
    → user_copy (user_of a) ≡ some (user_of a)
unfolding user_copy user_create_c user_create buffer_is_empty
user_copy_of a i p = rw (i, p) refl

module _ {R H K I D C : Type 0} {s : Services R H K I D C} (p : Promises s) where
  abbrev pub token_of : Account → (token owner owner_pk : Bytes) → Token
  token_of a token owner owner_pk = record {
    user = user_of a;
    owner = some (record { id = some owner; sk = none; pk = some owner_pk });
    token = some token;
  }

  module _ (w : World R K D C) (a : Account) (block : Bytes) where
    pub token_load_found :
        (is_update : Bool) {view other : K → Tokens}
        (finds : FindsToken view other (get_token s.ks is_update)) (key : Bytes)
        (h : Holds p (view w.ks) w.cs a block key)
        → (k : K) × (c : C) × (token_load
              (some s.ks)
              (some s.cs)
              (some (user_of a))
              (some (some block))
              is_update
              w
            ≡ (done (token_of a h.token h.owner h.owner_pk), record w { ks = k; cs = c }))
          × (view k ≡ view w.ks)
          × (other k ≡ other w.ks)
          × (p.keys c ≡ p.keys w.cs)
    unfolding token_load ◌>>=◌ tested on_keys on_credentials succeeded user_create token_create
        buffer_is_empty
    token_load_found is_update finds key h =
        let (k, got, views, others) = finds.found w.ks block a.id h.token h.owner h.stored in
        let (c, key_got, keys) = p.credential_laws.found w.cs h.owner h.owner_pk h.owner_known in
        (k, c, rw (got, key_got, h.owner_full, h.owner_pk_full) refl, views, others, keys)

    pub token_load_missing :
        (is_update : Bool) {view other : K → Tokens}
        (finds : FindsToken view other (get_token s.ks is_update))
        → view w.ks block a.id ≡ none
        → (k : K) × (token_load
              (some s.ks)
              (some s.cs)
              (some (user_of a))
              (some (some block))
              is_update
              w
            ≡ (null, record w { ks = k }))
          × (view k ≡ view w.ks)
          × (other k ≡ other w.ks)
    unfolding token_load ◌>>=◌ tested on_keys succeeded
    token_load_missing is_update finds h =
        let (status, token, owner, k, got, failed, views, others) =
          finds.missing w.ks block a.id h in
        (k, rw (got, failed) refl, views, others)

  pub moved_holds :
      {tokens tokens' : Tokens} {c c' : C} {a : Account} {block key : Bytes}
      → tokens' ≡ tokens
      → p.keys c' ≡ p.keys c
      → Holds p tokens c a block key
      → Holds p tokens' c' a block key
  moved_holds e f h = record {
    token = h.token;
    owner = h.owner;
    owner_pk = h.owner_pk;
    stored = rw e h.stored;
    owner_full = h.owner_full;
    owner_pk_full = h.owner_pk_full;
    owner_known = rw f h.owner_known;
    opens = h.opens;
  }

  -- What the token of a user who holds a key opens to.
  pub token_get_data_of :
      (w : World R K D C) (a : Account) (tokens : Tokens) (c : C) (block key : Bytes)
      (h : Holds p tokens c a block key)
      → token_get_data s.th (some (token_of a h.token h.owner h.owner_pk)) w ≡ (done (some key), w)
  unfolding token_get_data ◌>>=◌ tested followed succeeded pure lift
  token_get_data_of w a tokens c block key h = rw h.opens refl

  -- The block as it is loaded, without and with a write token.
  abbrev pub loaded_block :
      Account
      → (block cipher bytes meta : Bytes) → Token
      → Option Token
      → Option (Option Bytes)
      → Block
  loaded_block a block cipher bytes meta rtoken wtoken mac = record {
    user = user_of a;
    id = some (some block);
    block = some (some cipher);
    bytes = some (some bytes);
    meta = some (some meta);
    mac = mac;
    old_mac = none;
    rtoken = some rtoken;
    wtoken = wtoken;
  }

  module _ (w : World R K D C) (a : Account) (m : IsMember p w.cs a) (block bytes meta : Bytes)
      (r : CanRead p w a block bytes meta) where
    pub block_load_with :
        (key mac : Bytes) (h : Holds p (p.writes w.ks) w.cs a block key)
        → hm_mac_create s.th (some key) (some bytes) (some meta) ≡ (hm_success, some mac)
        → (w' : World R K D C) × (block_load s.th
              (block_create_empty (user_of a))
              (some (some block))
              (some s.ds)
              (some s.ks)
              (some s.cs)
              w
            ≡ (
              done (
                  loaded_block a block r.stored.cipher bytes meta
                    (token_of a r.reading.token r.reading.owner r.reading.owner_pk)
                    (some (token_of a h.token h.owner h.owner_pk))
                    (some (some mac))),
              w',
            ))
          × SameViews p w w'
    unfolding block_load ◌>>=◌ tested guard or_null on_blocks succeeded pure block_init init_read
        init_mac mac_of block_create_empty moved_holds
    block_load_with key mac h made =
        let copy = user_copy_of a m.id_full m.pk_full in
        let (k₁, c₁, first, reads₁, writes₁, keys₁) =
          token_load_found w a block false p.key_laws.finds_rtoken r.key r.reading in
        let h₁ = moved_holds writes₁ keys₁ h in
        let w₁ : World R K D C = record w { ks = k₁; cs = c₁ } in
        let (k₂, c₂, second, writes₂, reads₂, keys₂) =
          token_load_found w₁ a block true p.key_laws.finds_wtoken key h₁ in
        let (d, got, blocks) =
          p.data_laws.found w.ds block r.stored.cipher meta r.stored.mac r.stored.stored in
        let w₃ : World R K D C = record w { ks = k₂; cs = c₂; ds = d } in
        let read = token_get_data_of w₃ a (p.reads w.ks) w.cs block r.key r.reading in
        let write = token_get_data_of w₃ a (p.writes w.ks) w.cs block key h in
        (
          w₃,
          rw (copy, first, second, got, read, r.stored.opens, write, made) refl,
          record {
            same_reads = reads₂ ∙ reads₁;
            same_writes = writes₂ ∙ writes₁;
            same_blocks = blocks;
            same_keys = keys₂ ∙ keys₁;
          },
        )

    pub block_load_without :
        p.writes w.ks block a.id ≡ none
        → (w' : World R K D C) × (block_load s.th
              (block_create_empty (user_of a))
              (some (some block))
              (some s.ds)
              (some s.ks)
              (some s.cs)
              w
            ≡ (
              done (
                  loaded_block a block r.stored.cipher bytes meta
                    (token_of a r.reading.token r.reading.owner r.reading.owner_pk)
                    none
                    none),
              w',
            ))
          × SameViews p w w'
    unfolding block_load ◌>>=◌ tested guard or_null on_blocks succeeded pure block_init init_read
        init_mac block_create_empty
    block_load_without lacks =
        let copy = user_copy_of a m.id_full m.pk_full in
        let (k₁, c₁, first, reads₁, writes₁, keys₁) =
          token_load_found w a block false p.key_laws.finds_rtoken r.key r.reading in
        let w₁ : World R K D C = record w { ks = k₁; cs = c₁ } in
        let (k₂, second, writes₂, reads₂) =
          token_load_missing w₁ a block true p.key_laws.finds_wtoken (rw writes₁ lacks) in
        let (d, got, blocks) =
          p.data_laws.found w.ds block r.stored.cipher meta r.stored.mac r.stored.stored in
        let w₃ : World R K D C = record w { ks = k₂; cs = c₁; ds = d } in
        let read = token_get_data_of w₃ a (p.reads w.ks) w.cs block r.key r.reading in
        (
          w₃,
          rw (copy, first, second, got, read, r.stored.opens) refl,
          record {
            same_reads = reads₂ ∙ reads₁;
            same_writes = writes₂ ∙ writes₁;
            same_blocks = blocks;
            same_keys = keys₁;
          },
        )

  -- The read token of a user who can read, as it is loaded.
  abbrev pub rtoken_of :
      {w : World R K D C} (a : Account) {block bytes meta : Bytes}
      → CanRead p w a block bytes meta
      → Token
  rtoken_of a r = token_of a r.reading.token r.reading.owner r.reading.owner_pk

  pub block_load_found :
      (w : World R K D C) (a : Account) (m : IsMember p w.cs a) (block bytes meta : Bytes)
      (r : CanRead p w a block bytes meta)
      → (wtoken : Option Token) × (mac : Option (Option Bytes)) × (w' : World R K D C) × (block_load
            s.th
            (block_create_empty (user_of a))
            (some (some block))
            (some s.ds)
            (some s.ks)
            (some s.cs)
            w
          ≡ (done (loaded_block a block r.stored.cipher bytes meta (rtoken_of a r) wtoken mac), w'))
        × SameViews p w w'
  block_load_found w a m block bytes meta r = elim r.writing [
    | without lacks ↦
        let (w', ran, same) = block_load_without w a m block bytes meta r lacks in
        (none, none, w', ran, same)
    | with_key key mac h made ↦
        let (w', ran, same) = block_load_with w a m block bytes meta r key mac h made in
        (some (token_of a h.token h.owner h.owner_pk), some (some mac), w', ran, same)
  ]
