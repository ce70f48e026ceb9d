-- ===== src/MidHermes/ReadBack.antt =====
-- Creating and reading blocks (src/mid_hermes/mid_hermes.c) against the abstract state of Access.antt.
use hermes_core.Prelude.{
  inl, inr, Bool-cases, ◌≡◌, ◌∙◌, refl, ap, false, ◌&&◌, Option, none, some, is_empty, arith,
}
use hermes_core.Common.Bytes.{Bytes, is_given}
use hermes_core.Common.Status.{hm_success, hm_fail}
use hermes_core.MidHermes.{
  mid_hermes_create_block, mid_hermes_read_block, created, id_buffer, id_after,
}
use hermes_core.MidHermes.Access.{
  Services, Promises, Account, hermes_of, IsMember, CanRead, SameViews,
}
use hermes_core.MidHermes.Creating.{block_create-IsMade, saved-CanRead}
use hermes_core.MidHermes.Loading.{user_copy_of, block_load_found}
use hermes_core.MidHermes.Saving.{block_save_stored}
use hermes_core.MidHermesLl.Block.{Block}
use hermes_core.MidHermesLl.Run.{
  followed-done, or_null-done, reported-success, done, pure, or_null, ◌>>=◌, tested, bind-done,
  tested_here-done, pure_last,
}
use hermes_core.MidHermesLl.Stores.{World}

id_after_saved :
    (id : Option Bytes) (bl : Block) (i : Bytes)
    → bl.id ≡ some (some i)
    → ((j : Bytes) → id ≡ some j → i ≡ j)
    → id_after id (some bl) ≡ some i
id_after_saved none bl i has_id kept = rw has_id refl
id_after_saved (some j) bl i has_id kept = rw (kept j refl) refl

module _ {R H K I D C : Type 0} {s : Services R H K I D C} (p : Promises s) where
  -- Who can read a block gets its bytes and its meta from `mid_hermes_read_block`, and no view of a
  -- store changes.
  pub mid_hermes_read_block-CanRead :
      (a : Account) (block bytes meta : Bytes) (w : World R K D C)
      → IsMember p w.cs a
      → is_empty block ≡ false
      → CanRead p w a block bytes meta
      → (w' : World R K D C) × (mid_hermes_read_block s.th (hermes_of s a) (some block) w
          ≡ (done (hm_success, some (some bytes, some meta)), w'))
        × SameViews p w w'
  unfolding mid_hermes_read_block or_null ◌>>=◌ pure tested
  mid_hermes_read_block-CanRead a block bytes meta w m full r =
      let copy = user_copy_of a m.id_full m.pk_full in
      let (wtoken, mac, w', ran, same) = block_load_found p w a m block bytes meta r in
      (w', rw (full, copy, ran) refl, same)

  created-CanRead :
      (a : Account) (id : Option Bytes) (bytes meta : Bytes) (w : World R K D C) {bl : Block}
      {w' : World R K D C}
      → IsMember p w.cs a
      → created s.th (hermes_of s a) id (some bytes) (some meta) w ≡ (done bl, w')
      → (i : Bytes) × (id_after id (some bl) ≡ some i)
        × (is_empty i ≡ false)
        × IsMember p w'.cs a
        × CanRead p w' a i bytes meta
  created-CanRead a id bytes meta w {bl} {w'} m h =
      let h1 = tested_here-done _ _ _ (rw (user_copy_of a m.id_full m.pk_full) at h) in
      let (o, w₁, ran_o, h1') = bind-done _ _ _ h1 in
      let (made, is_o, h2) = followed-done _ _ _ h1' in
      let ran = or_null-done _ _ (rw is_o at ran_o) in
      let (is_made, has_id, only) = block_create-IsMade p a (id_buffer id) bytes meta w m ran in
      let (i, new_id, saved) = block_save_stored p a made is_made.ready w₁ h2 in
      let m' : IsMember p w'.cs a = rw (saved.same_cs, only.2) m in
      (
        i,
        id_after_saved id bl i new_id (λ j e. saved.same_id j (rw has_id (rw e refl))),
        saved.id_full,
        m',
        saved-CanRead p a made bytes meta w₁ w' i is_made m' saved,
      )

  -- A block that was created has an id, the caller's if there is one, and its creator can read the
  -- bytes and the meta under it.
  pub mid_hermes_create_block-CanRead :
      (a : Account) (id : Option Bytes) (bytes meta : Bytes) (w : World R K D C)
      (id' : Option Bytes) (w' : World R K D C)
      → IsMember p w.cs a
      → mid_hermes_create_block s.th (hermes_of s a) id (some bytes) (some meta) w
        ≡ (done (hm_success, id'), w')
      → (i : Bytes) × (id' ≡ some i)
        × (is_empty i ≡ false)
        × IsMember p w'.cs a
        × CanRead p w' a i bytes meta
  unfolding mid_hermes_create_block
  mid_hermes_create_block-CanRead a id bytes meta w id' w' m h =
      elim (Bool-cases (is_given (some bytes) && is_given (some meta))) [
        | inr e ↦
            let (same, state) = pure_last (rw e at h) in absurd (ground (arith, ap (λ x. x.0) same))
        | inl e ↦
            let (bl, ran, new_id) =
              reported-success (created s.th (hermes_of s a) id (some bytes) (some meta)) hm_fail
                (id_after id) w refl (rw e at h) in
            let (i, is_id, full, m', can) = created-CanRead a id bytes meta w m ran in
            (i, new_id ∙ is_id, full, m', can)
      ]

  -- A block that was created is read back by its creator: if `mid_hermes_create_block` answers
  -- HM_SUCCESS, then `mid_hermes_read_block` under the id that it left answers HM_SUCCESS with the same
  -- bytes and meta. The creator's keys are a pair of which the public one is registered, and Themis and
  -- the stores keep their promises.
  pub mid_hermes_read_block-mid_hermes_create_block :
      (a : Account) (id : Option Bytes) (bytes meta : Bytes) (w : World R K D C)
      (id' : Option Bytes) (w' : World R K D C)
      → IsMember p w.cs a
      → mid_hermes_create_block s.th (hermes_of s a) id (some bytes) (some meta) w
        ≡ (done (hm_success, id'), w')
      → (w'' : World R K D C) × (mid_hermes_read_block s.th (hermes_of s a) id' w'
          ≡ (done (hm_success, some (some bytes, some meta)), w''))
  mid_hermes_read_block-mid_hermes_create_block a id bytes meta w id' w' m h =
      let (i, is_id, full, m', can) =
        mid_hermes_create_block-CanRead a id bytes meta w id' w' m h in
      let (w'', ran, same) = mid_hermes_read_block-CanRead a i bytes meta w' m' full can in
      (w'', rw is_id ran)
