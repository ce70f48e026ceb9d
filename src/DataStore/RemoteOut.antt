-- ===== src/DataStore/RemoteOut.antt =====
-- The proxies of src/data_store/functions.c with results, over an idle connection.
use hermes_core.Prelude.{
  ◌<◌, ◌≡◌, ◌∙◌, ap, refl, false, ◌&&◌, Option, some, [], ◌∷◌, arith, inl, inr, Bool-cases,
  if◌then◌else◌, ◌==◌, beq_iff,
}
use hermes_core.Common.Bytes.{Bytes, u32_mod, is_given, contents}
use hermes_core.Common.HashTable.{Table}
use hermes_core.Common.Status.{Status, hm_success, hm_invalid_parameter}
use hermes_core.DataStore.{Db, create_block, read_block}
use hermes_core.DataStore.Names.{create_block_name, read_block_name}
use hermes_core.DataStore.Proxies.{create_block_proxy, read_block_proxy, id_results, block_results}
use hermes_core.DataStore.Stubs.{create_block_stub, read_block_stub, id_out, block_out}
use hermes_core.Rpc.Calling.{pack_args}
use hermes_core.Rpc.Calling.Answered.{given_some, given_and, answer_of, answered, out_call-answered}
use hermes_core.Rpc.Calling.Buffers.{weight, buffers_pack, extract_types-buffers}
use hermes_core.Rpc.Calling.Served.{guarded_refused}
use hermes_core.Rpc.Calling.Remote.{Knows}
use hermes_core.Rpc.Calling.Stores.{arrived}
use hermes_core.Rpc.Loopback.{World, client_end}
use hermes_core.Rpc.Loopback.Calls.{idle}
use hermes_core.Rpc.ParamPack
use hermes_core.Rpc.ParamPack.{buffer, buffer_c, buffer_arg, created}
use hermes_core.Rpc.Server.{Func}

-- What the client sees of the results: nothing unless the status is HM_SUCCESS.
abbrev pub seen_id : {D : Type 0} → Status × Bytes × D → Status × Bytes × World D
seen_id (status, id, d) =
    if status == hm_success then (status, id, idle d) else (status, [], idle d)

abbrev pub seen_block : {D : Type 0} → Status × Bytes × Bytes × D → Status × Bytes × Bytes × World D
seen_block (status, block, meta, d) =
    if status == hm_success then (status, block, meta, idle d) else (status, [], [], idle d)

pack_args-one : (a : Bytes) → pack_args (buffer_arg a ∷ []) ≡ created (buffers_pack buffer (a ∷ []))
unfolding pack_args ParamPack.create
pack_args-one a = refl

pack_args-pair :
    (a b : Bytes)
    → pack_args (buffer_arg a ∷ buffer_arg b ∷ []) ≡ created (buffers_pack buffer (a ∷ b ∷ []))
unfolding pack_args ParamPack.create
pack_args-pair a b = refl

module _ {D : Type 0} where
  id_out-answer : (r : Status × Bytes × D) → id_out r ≡ answer_of buffer r.0 (r.1 ∷ []) r.2
  id_out-answer (status, id, d) = elim (Bool-cases (status == hm_success)) [
    | inl h ↦ rw (h, pack_args-one id) refl
    | inr h ↦ rw h refl
  ]

  block_out-answer :
      (r : Status × Bytes × Bytes × D) → block_out r ≡ answer_of buffer r.0 (r.1 ∷ r.2 ∷ []) r.3
  block_out-answer (status, block, meta, d) = elim (Bool-cases (status == hm_success)) [
    | inl h ↦ rw (h, pack_args-pair block meta) refl
    | inr h ↦ rw h refl
  ]

  id_results-answered :
      (r : Status × Bytes × D) → id_results (answered r.0 (r.1 ∷ []) r.2) ≡ seen_id r
  id_results-answered (status, id, d) = elim (Bool-cases (status == hm_success)) [
    | inl h ↦ let e = (beq_iff status hm_success).0 h in rw e refl
    | inr h ↦ rw h refl
  ]

  block_results-answered :
      (r : Status × Bytes × Bytes × D)
      → block_results (answered r.0 (r.1 ∷ r.2 ∷ []) r.3) ≡ seen_block r
  block_results-answered (status, block, meta, d) = elim (Bool-cases (status == hm_success)) [
    | inl h ↦ let e = (beq_iff status hm_success).0 h in rw e refl
    | inr h ↦ rw h refl
  ]

  module _ (db : Db D) where
    create_stub-arrived :
        (a b c : Bytes) (d : D)
        → create_block_stub db (arrived (a ∷ b ∷ c ∷ [])) d
          ≡ id_out (create_block db (some a) (some b) (some c) d)
    unfolding create_block_stub
    create_stub-arrived a b c d = rw (extract_types-buffers buffer_c (a ∷ b ∷ c ∷ [])) refl

    read_stub-arrived :
        (a : Bytes) (d : D)
        → read_block_stub db (arrived (a ∷ [])) d ≡ block_out (read_block db (some a) d)
    unfolding read_block_stub
    read_stub-arrived a d = rw (extract_types-buffers buffer_c (a ∷ [])) refl

    create-refused :
        (block meta mac : Option Bytes) (d : D)
        → (is_given block && is_given meta && is_given mac) ≡ false
        → create_block db block meta mac d ≡ (hm_invalid_parameter, [], d)
    unfolding create_block
    create-refused block meta mac d h = guarded_refused db.user_data _ db.insert_block _ _ h

    read-refused :
        (id : Option Bytes) (d : D)
        → is_given id ≡ false
        → read_block db id d ≡ (hm_invalid_parameter, [], [], d)
    unfolding read_block
    read-refused id d h = guarded_refused db.user_data _ db.get_block _ _ h

module _ {D : Type 0} {table : Table (Func D)} (db : Db D) where
  -- Over an idle connection to a server that has the stub, `create_block_proxy` runs `create_block` on
  -- the server's database and returns its status and, if that is HM_SUCCESS, the new block's id. The
  -- arguments and the id each take less than 4 GiB as a message, and the status fits a uint32_t.
  pub create_block-remote :
      Knows table create_block_name (create_block_stub db)
      → (block meta mac : Option Bytes) (d : D)
      → weight (contents block ∷ contents meta ∷ contents mac ∷ []) < u32_mod
      → weight ((create_block db block meta mac d).1 ∷ []) < u32_mod
      → (create_block db block meta mac d).0 < u32_mod
      → create_block_proxy (client_end table) block meta mac (idle d)
        ≡ seen_id (create_block db block meta mac d)
  unfolding create_block_proxy
  create_block-remote k block meta mac d small answer word =
      elim (Bool-cases (is_given block && is_given meta && is_given mac)) [
        | inr h ↦ rw (h, create-refused db block meta mac d h) refl
        | inl h ↦
            let (hm, h1) = given_and (is_given block && is_given meta) mac h in
            let (he, h2) = given_and (is_given block) meta h1 in
            let hb = given_some block h2 in
            let r = create_block db block meta mac d in
            let same : create_block db (some (contents block)) (some (contents meta))
                  (some (contents mac)) d
                ≡ r =
              cc in
            let run =
              create_stub-arrived db (contents block) (contents meta) (contents mac) d
              ∙ ap (λ r. id_out r) same
              ∙ id_out-answer r in
            rw
              (
                h,
                out_call-answered k buffer (contents block) (contents meta ∷ contents mac ∷ []) d
                    r.0 r.1 [] r.2 (omega arith) (omega arith) run small answer word,
              )
              (id_results-answered r)
      ]

  -- Over an idle connection to a server that has the stub, `read_block_proxy` runs `read_block` on the
  -- server's database and returns its status and, if that is HM_SUCCESS, the block and its meta. The
  -- id and the results each take less than 4 GiB as a message, and the status fits a uint32_t.
  pub read_block-remote :
      Knows table read_block_name (read_block_stub db)
      → (id : Option Bytes) (d : D) → weight (contents id ∷ []) < u32_mod
      → weight ((read_block db id d).1 ∷ (read_block db id d).2 ∷ []) < u32_mod
      → (read_block db id d).0 < u32_mod
      → read_block_proxy (client_end table) id (idle d) ≡ seen_block (read_block db id d)
  unfolding read_block_proxy
  read_block-remote k id d small answer word = elim (Bool-cases (is_given id)) [
    | inr h ↦ rw (h, read-refused db id d h) refl
    | inl h ↦
        let hi = given_some id h in
        let r = read_block db id d in
        let same : read_block db (some (contents id)) d ≡ r = cc in
        let run =
          read_stub-arrived db (contents id) d ∙ ap (λ r. block_out r) same ∙ block_out-answer r in
        rw
          (
            h,
            out_call-answered k buffer (contents id) [] d r.0 r.1 (r.2 ∷ []) r.3 (omega arith)
                (omega arith) run small answer word,
          )
          (block_results-answered r)
  ]
