-- ===== src/MidHermesLl/Stores.antt =====
-- The stores that src/mid_hermes_ll calls: the functions of
-- include/hermes/mid_hermes_ll/interfaces/{key_store,data_store,credential_store}.h as records, each
-- over the state of what stands behind it. An argument is a pointer with its length; a result is what
-- the call stores where the status is HM_SUCCESS, and is not read otherwise.
pub mod Laws
use hermes_core.Prelude.{Option, ◌≡◌, ap}
use hermes_core.Common.Bytes.{Bytes}
use hermes_core.Common.Status.{Status}
use hermes_core.MidHermesLl.Run.{Run, Outcome, done, ◌>>=◌}

-- `I` is `hermes_key_store_iterator_t`.
pub record KeyStoreOps (K I : Type 0) : Type 0 where
  -- The user's id and the block's id; the token and its owner's id.
  pub get_rtoken : Option Bytes → Option Bytes → K → (Status × Bytes × Bytes) × K
  pub get_wtoken : Option Bytes → Option Bytes → K → (Status × Bytes × Bytes) × K
  -- The user's id, the block's id, the token and its owner's id.
  pub set_rtoken : Option Bytes → Option Bytes → Option Bytes → Option Bytes → K → Status × K
  pub set_wtoken : Option Bytes → Option Bytes → Option Bytes → Option Bytes → K → Status × K
  pub iterator_create : Option Bytes → K → Option I × K
  pub iterator_next : I → K → (Status × I) × K
  pub iterator_get_user_id : I → Option Bytes

-- The block's id (which a call that is given none stores), the data, the meta, the MAC and the MAC of
-- the block that is replaced.
pub record DataStoreOps (D : Type 0) : Type 0 where
  pub set_block :
      Option Bytes
      → Option Bytes
      → Option Bytes
      → Option Bytes
      → Option Bytes
      → D
      → (Status × Option Bytes) × D
  pub get_block : Option Bytes → D → (Status × Bytes × Bytes) × D
  pub rem_block : Option Bytes → Option Bytes → D → Status × D

pub record CredentialStoreOps (C : Type 0) : Type 0 where
  pub get_public_key : Option Bytes → C → (Status × Bytes) × C

-- The state that one call of src/mid_hermes works on. Each store has its own.
pub record World (R K D C : Type 0) : Type 0 where
  pub rng : R
  pub ks : K
  pub ds : D
  pub cs : C

-- A call of the library, or of a store, from a function of src/mid_hermes_ll.
module _ {R K D C A : Type 0} where
  unfoldable pub on_rng : (R → A × R) → Run (World R K D C) A
  on_rng f w = let (a, r) = f w.rng in (done a, record w { rng = r })

  unfoldable pub on_keys : (K → A × K) → Run (World R K D C) A
  on_keys f w = let (a, k) = f w.ks in (done a, record w { ks = k })

  unfoldable pub on_blocks : (D → A × D) → Run (World R K D C) A
  on_blocks f w = let (a, d) = f w.ds in (done a, record w { ds = d })

  unfoldable pub on_credentials : (C → A × C) → Run (World R K D C) A
  on_credentials f w = let (a, c) = f w.cs in (done a, record w { cs = c })

-- A chain that begins with a call goes on from what the call leaves.
module _ {R K D C A B : Type 0} {b : B} {w' : World R K D C} where
  pub on_rng-done :
      (f : R → A × R) (g : A → Run (World R K D C) B) (w : World R K D C)
      → (on_rng f >>= g) w ≡ (done b, w')
      → g (f w.rng).0 (record w { rng = (f w.rng).1 }) ≡ (done b, w')
  unfolding on_rng ◌>>=◌
  on_rng-done f g w h = h

  pub on_keys-done :
      (f : K → A × K) (g : A → Run (World R K D C) B) (w : World R K D C)
      → (on_keys f >>= g) w ≡ (done b, w')
      → g (f w.ks).0 (record w { ks = (f w.ks).1 }) ≡ (done b, w')
  unfolding on_keys ◌>>=◌
  on_keys-done f g w h = h

  pub on_blocks-done :
      (f : D → A × D) (g : A → Run (World R K D C) B) (w : World R K D C)
      → (on_blocks f >>= g) w ≡ (done b, w')
      → g (f w.ds).0 (record w { ds = (f w.ds).1 }) ≡ (done b, w')
  unfolding on_blocks ◌>>=◌
  on_blocks-done f g w h = h

module _ {R K D C A : Type 0} where
  pub on_keys_last :
      (f : K → A × K) (w : World R K D C) {w' : World R K D C} {a : A}
      → on_keys f w ≡ (done a, w')
      → (f w.ks ≡ (a, (f w.ks).1)) × (w' ≡ record w { ks = (f w.ks).1 })
  unfolding on_keys
  on_keys_last f w {a = a} h =
      let e : (f w.ks).0 ≡ a = cc (ap (λ p. p.0) h) in
      (ap (λ x. (x, (f w.ks).1)) e, cc (ap (λ p. p.1) h))
