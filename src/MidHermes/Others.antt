-- ===== src/MidHermes/Others.antt =====
-- Loading another user, and what stays true of users and blocks while the views of the stores do.
use hermes_core.Prelude.{◌≡◌, ◌∙◌, sym, refl, none, some}
use hermes_core.Common.Bytes.{Bytes}
use hermes_core.MidHermes.{loaded}
use hermes_core.MidHermes.Access.{
  Services, Promises, Account, user_of, hermes_of, IsMember, Opens, SameViews, without, with_key,
  Writing,
}
use hermes_core.MidHermes.Loading.{user_copy_of, moved_holds}
use hermes_core.MidHermesLl.Block.{Block, block_create_empty}
use hermes_core.MidHermesLl.Block.Stored.{block_load}
use hermes_core.MidHermesLl.Run.{Run, done, guard, succeeded, ◌>>=◌, tested, bind_run}
use hermes_core.MidHermesLl.Stores.{World, on_credentials}
use hermes_core.MidHermesLl.User.{User, buffer_is_empty, user_create, user_load, user_load_c}

-- A user as it is loaded from the credential store.
abbrev pub loaded_user : Account → User
loaded_user b = record { id = some b.id; sk = none; pk = some b.pk }

module _ {R H K I D C : Type 0} {s : Services R H K I D C} (p : Promises s) where
  pub user_load_c_found :
      (w : World R K D C) (b : Account)
      → IsMember p w.cs b
      → (c : C) × (user_load_c (some s.cs) (some b.id) w
          ≡ (done (loaded_user b), record w { cs = c }))
        × (p.keys c ≡ p.keys w.cs)
  unfolding user_load_c user_load ◌>>=◌ guard tested succeeded on_credentials user_create
      buffer_is_empty
  user_load_c_found w b m =
      let (c, got, keys) = p.credential_laws.found w.cs b.id b.pk m.known in
      (c, rw (m.id_full, got, m.id_full, m.pk_full) refl, keys)

  pub moved_member :
      {c c' : C} {a : Account} → p.keys c' ≡ p.keys c → IsMember p c a → IsMember p c' a
  moved_member e m = record {
    id_full = m.id_full;
    sk_full = m.sk_full;
    pk_full = m.pk_full;
    paired = m.paired;
    known = rw e m.known;
  }

  pub loaded_run :
      (a : Account) (block : Bytes) (w : World R K D C) {bl : Block} {w' : World R K D C}
      → IsMember p w.cs a
      → block_load s.th
          (block_create_empty (user_of a))
          (some (some block))
          (some s.ds)
          (some s.ks)
          (some s.cs)
          w
        ≡ (done bl, w')
      → loaded s.th (hermes_of s a) (some block) w ≡ (done bl, w')
  unfolding tested ◌>>=◌
  loaded_run a block w m ran = rw (user_copy_of a m.id_full m.pk_full) ran

  -- What follows the loading of a block and of the user whom it is about.
  pub loaded_then :
      {X : Type 0} (f : Block → User → Run (World R K D C) X) (a b : Account) (block : Bytes)
      (w w₁ : World R K D C) (bl : Block) {x : X} {w' : World R K D C}
      → IsMember p w.cs a
      → IsMember p w.cs b
      → block_load s.th
          (block_create_empty (user_of a))
          (some (some block))
          (some s.ds)
          (some s.ks)
          (some s.cs)
          w
        ≡ (done bl, w₁)
      → SameViews p w w₁
      → (do
        bl ← loaded s.th (hermes_of s a) (some block)
        for_user ← user_load_c (some s.cs) (some b.id)
        f bl for_user)
          w
        ≡ (done x, w')
      → (c : C) × (p.keys c ≡ p.keys w.cs)
        × (f bl (loaded_user b) (record w₁ { cs = c }) ≡ (done x, w'))
  loaded_then f a b block w w₁ bl m m' ran same h =
      let h1 = sym (bind_run _ _ w (loaded_run a block w m ran)) ∙ h in
      let (c, found, keys) = user_load_c_found w₁ b (moved_member same.same_keys m') in
      (c, keys ∙ same.same_keys, sym (bind_run _ _ w₁ found) ∙ h1)

  pub moved-Writing :
      {w w' : World R K D C} {a : Account} {block bytes meta : Bytes}
      → p.writes w'.ks ≡ p.writes w.ks
      → p.keys w'.cs ≡ p.keys w.cs
      → Writing p w a block bytes meta
      → Writing p w' a block bytes meta
  moved-Writing e f (without lacks) = without (rw e lacks)
  moved-Writing e f (with_key key mac h made) = with_key key mac (moved_holds p e f h) made

  pub moved_opens :
      {d d' : D} {block key bytes meta : Bytes}
      → p.blocks d' ≡ p.blocks d
      → Opens p d block key bytes meta
      → Opens p d' block key bytes meta
  moved_opens e o = record {
    cipher = o.cipher;
    mac = o.mac;
    stored = rw e o.stored;
    opens = o.opens;
  }
