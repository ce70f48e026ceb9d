-- ===== src/DataStore/Remote.antt =====
-- The proxies of src/data_store/functions.c without results, over an idle connection.
use hermes_core.Prelude.{
  ◌<◌, ◌≡◌, ◌∙◌, ap, refl, false, ◌&&◌, Option, none, some, [], ◌∷◌, arith, inl, inr, Bool-cases,
}
use hermes_core.Common.Bytes.{Bytes, u32_mod, is_given, contents}
use hermes_core.Common.HashTable.{Table}
use hermes_core.Common.Status.{hm_invalid_parameter}
use hermes_core.DataStore.{Db, create_block_with_id, update_block, delete_block}
use hermes_core.DataStore.Names.{create_block_with_id_name, update_block_name, delete_block_name}
use hermes_core.DataStore.Proxies.{
  create_block_with_id_proxy, update_block_proxy, delete_block_proxy,
}
use hermes_core.DataStore.Stubs.{create_block_with_id_stub, update_block_stub, delete_block_stub}
use hermes_core.Rpc.Calling.Answered.{given_some, given_and}
use hermes_core.Rpc.Calling.Buffers.{weight, extract_types-buffers}
use hermes_core.Rpc.Calling.Served.{guarded_refused}
use hermes_core.Rpc.Calling.Remote.{Knows}
use hermes_core.Rpc.Calling.Stores.{arrived, status_call-buffers}
use hermes_core.Rpc.Loopback.{client_end}
use hermes_core.Rpc.Loopback.Calls.{idle}
use hermes_core.Rpc.ParamPack.{buffer_c}
use hermes_core.Rpc.Server.{Func}

-- Each stub runs its operation on what arrived, and each operation refuses an argument not given.
module _ {D : Type 0} (db : Db D) where
  with_id_stub-arrived :
      (a b c e : Bytes) (d : D)
      → create_block_with_id_stub db (arrived (a ∷ b ∷ c ∷ e ∷ [])) d ≡ (
          let r = create_block_with_id db (some a) (some b) (some c) (some e) d in
          some (r.0, none, r.1))
  unfolding create_block_with_id_stub
  with_id_stub-arrived a b c e d = rw (extract_types-buffers buffer_c (a ∷ b ∷ c ∷ e ∷ [])) refl

  update_stub-arrived :
      (a b c e g : Bytes) (d : D)
      → update_block_stub db (arrived (a ∷ b ∷ c ∷ e ∷ g ∷ [])) d ≡ (
          let r = update_block db (some a) (some b) (some c) (some e) (some g) d in
          some (r.0, none, r.1))
  unfolding update_block_stub
  update_stub-arrived a b c e g d =
      rw (extract_types-buffers buffer_c (a ∷ b ∷ c ∷ e ∷ g ∷ [])) refl

  delete_stub-arrived :
      (a b : Bytes) (d : D)
      → delete_block_stub db (arrived (a ∷ b ∷ [])) d
        ≡ (let r = delete_block db (some a) (some b) d in some (r.0, none, r.1))
  unfolding delete_block_stub
  delete_stub-arrived a b d = rw (extract_types-buffers buffer_c (a ∷ b ∷ [])) refl

  with_id-refused :
      (id block meta mac : Option Bytes) (d : D)
      → (is_given block && is_given meta && is_given mac && is_given id) ≡ false
      → create_block_with_id db id block meta mac d ≡ (hm_invalid_parameter, d)
  unfolding create_block_with_id
  with_id-refused id block meta mac d h =
      guarded_refused db.user_data _ db.insert_block_with_id _ _ h

  update-refused :
      (id block meta mac old_mac : Option Bytes) (d : D)
      → (is_given id && is_given block && is_given meta && is_given mac && is_given old_mac) ≡ false
      → update_block db id block meta mac old_mac d ≡ (hm_invalid_parameter, d)
  unfolding update_block
  update-refused id block meta mac old_mac d h =
      guarded_refused db.user_data _ db.update_block _ _ h

  delete-refused :
      (id old_mac : Option Bytes) (d : D)
      → (is_given id && is_given old_mac) ≡ false
      → delete_block db id old_mac d ≡ (hm_invalid_parameter, d)
  unfolding delete_block
  delete-refused id old_mac d h = guarded_refused db.user_data _ db.rem_block _ _ h

module _ {D : Type 0} {table : Table (Func D)} (db : Db D) where
  -- Over an idle connection to a server that has the stub, `create_block_with_id_proxy` does to the
  -- server's database what `create_block_with_id` does, and returns its status, refused arguments
  -- included. The arguments take less than 4 GiB as a message, and the status fits a uint32_t.
  pub create_block_with_id-remote :
      Knows table create_block_with_id_name (create_block_with_id_stub db)
      → (id block meta mac : Option Bytes) (d : D)
      → weight (contents id ∷ contents block ∷ contents meta ∷ contents mac ∷ []) < u32_mod
      → (create_block_with_id db id block meta mac d).0 < u32_mod
      → create_block_with_id_proxy (client_end table) id block meta mac (idle d)
        ≡ (let r = create_block_with_id db id block meta mac d in (r.0, idle r.1))
  unfolding create_block_with_id_proxy
  create_block_with_id-remote k id block meta mac d small word =
      elim (Bool-cases (is_given block && is_given meta && is_given mac && is_given id)) [
        | inr h ↦ rw (h, with_id-refused db id block meta mac d h) refl
        | inl h ↦
            let (hi, h1) = given_and (is_given block && is_given meta && is_given mac) id h in
            let (hm, h2) = given_and (is_given block && is_given meta) mac h1 in
            let (he, h3) = given_and (is_given block) meta h2 in
            let hb = given_some block h3 in
            let r = create_block_with_id db id block meta mac d in
            let same : create_block_with_id db (some (contents id)) (some (contents block))
                  (some (contents meta)) (some (contents mac)) d
                ≡ r =
              cc in
            rw h (
              status_call-buffers k (contents id)
                (contents block ∷ contents meta ∷ contents mac ∷ []) (omega arith) small d r.0 r.1
                (with_id_stub-arrived db (contents id) (contents block) (contents meta)
                    (contents mac) d
                  ∙ ap (λ r. some (r.0, none, r.1)) same)
                word)
      ]

  -- Over an idle connection to a server that has the stub, `update_block_proxy` does to the server's
  -- database what `update_block` does, and returns its status, refused arguments included. The
  -- arguments take less than 4 GiB as a message, and the status fits a uint32_t.
  pub update_block-remote :
      Knows table update_block_name (update_block_stub db)
      → (id block meta mac old_mac : Option Bytes) (d : D)
      → weight (contents id ∷ contents block ∷ contents meta ∷ contents mac ∷ contents old_mac ∷ [])
        < u32_mod
      → (update_block db id block meta mac old_mac d).0 < u32_mod
      → update_block_proxy (client_end table) id block meta mac old_mac (idle d)
        ≡ (let r = update_block db id block meta mac old_mac d in (r.0, idle r.1))
  unfolding update_block_proxy
  update_block-remote k id block meta mac old_mac d small word =
      elim (Bool-cases
        (is_given id && is_given block && is_given meta && is_given mac && is_given old_mac)) [
          | inr h ↦ rw (h, update-refused db id block meta mac old_mac d h) refl
          | inl h ↦
              let (ho, h1) =
                given_and (is_given id && is_given block && is_given meta && is_given mac) old_mac
                  h in
              let (hm, h2) = given_and (is_given id && is_given block && is_given meta) mac h1 in
              let (he, h3) = given_and (is_given id && is_given block) meta h2 in
              let (hb, h4) = given_and (is_given id) block h3 in
              let hi = given_some id h4 in
              let r = update_block db id block meta mac old_mac d in
              let same : update_block db (some (contents id)) (some (contents block))
                    (some (contents meta)) (some (contents mac)) (some (contents old_mac)) d
                  ≡ r =
                cc in
              rw h (
                status_call-buffers k (contents id)
                  (contents block ∷ contents meta ∷ contents mac ∷ contents old_mac ∷ [])
                  (omega arith) small d r.0 r.1
                  (update_stub-arrived db (contents id) (contents block) (contents meta)
                      (contents mac) (contents old_mac) d
                    ∙ ap (λ r. some (r.0, none, r.1)) same)
                  word)
        ]

  -- Over an idle connection to a server that has the stub, `delete_block_proxy` does to the server's
  -- database what `delete_block` does, and returns its status, refused arguments included. The
  -- arguments take less than 4 GiB as a message, and the status fits a uint32_t.
  pub delete_block-remote :
      Knows table delete_block_name (delete_block_stub db)
      → (id old_mac : Option Bytes) (d : D) → weight (contents id ∷ contents old_mac ∷ []) < u32_mod
      → (delete_block db id old_mac d).0 < u32_mod
      → delete_block_proxy (client_end table) id old_mac (idle d)
        ≡ (let r = delete_block db id old_mac d in (r.0, idle r.1))
  unfolding delete_block_proxy
  delete_block-remote k id old_mac d small word =
      elim (Bool-cases (is_given id && is_given old_mac)) [
        | inr h ↦ rw (h, delete-refused db id old_mac d h) refl
        | inl h ↦
            let (ho, h1) = given_and (is_given id) old_mac h in
            let hi = given_some id h1 in
            let r = delete_block db id old_mac d in
            let same : delete_block db (some (contents id)) (some (contents old_mac)) d ≡ r = cc in
            rw h (
              status_call-buffers k (contents id) (contents old_mac ∷ []) (omega arith) small d r.0
                r.1
                (delete_stub-arrived db (contents id) (contents old_mac) d
                  ∙ ap (λ r. some (r.0, none, r.1)) same)
                word)
      ]
