-- ===== src/CredentialStore/Remote.antt =====
-- The proxy of src/credential_store/functions.c over an idle connection.
use hermes_core.Prelude.{
  ◌<◌, ◌≡◌, ◌∙◌, ap, refl, true, false, Option, some, [], ◌∷◌, arith, inl, inr, Bool-cases,
  if◌then◌else◌, ◌==◌, beq_iff,
}
use hermes_core.Common.Bytes.{Bytes, u32_mod, is_given, contents}
use hermes_core.Common.HashTable.{Table}
use hermes_core.Common.Status.{Status, hm_success, hm_invalid_parameter}
use hermes_core.CredentialStore.{
  Db, get_pub_key_by_id, get_pub_key_by_id_name, get_pub_key_by_id_stub, get_pub_key_by_id_proxy,
  key_out, key_results,
}
use hermes_core.Rpc.Calling.{pack_args}
use hermes_core.Rpc.Calling.Answered.{given_some, answer_of, answered, out_call-answered}
use hermes_core.Rpc.Calling.Buffers.{weight, buffers_pack, extract_types-buffers}
use hermes_core.Rpc.Calling.Served.{guarded_refused}
use hermes_core.Rpc.Calling.Remote.{Knows}
use hermes_core.Rpc.Calling.Stores.{arrived}
use hermes_core.Rpc.Loopback.{World, client_end}
use hermes_core.Rpc.Loopback.Calls.{idle}
use hermes_core.Rpc.ParamPack
use hermes_core.Rpc.ParamPack.{buffer_c, buffer_c_arg, created}
use hermes_core.Rpc.Server.{Func}

-- What the client sees of the results: no key unless the status is HM_SUCCESS.
abbrev pub seen_key : {D : Type 0} → Status × Bytes × D → Status × Bytes × World D
seen_key (status, key, d) =
    if status == hm_success then (status, key, idle d) else (status, [], idle d)

pack_args-key :
    (a : Bytes) → pack_args (buffer_c_arg a ∷ []) ≡ created (buffers_pack buffer_c (a ∷ []))
unfolding pack_args ParamPack.create
pack_args-key a = refl

module _ {D : Type 0} where
  key_out-answer : (r : Status × Bytes × D) → key_out r ≡ answer_of buffer_c r.0 (r.1 ∷ []) r.2
  key_out-answer (status, key, d) = elim (Bool-cases (status == hm_success)) [
    | inl h ↦ rw (h, pack_args-key key) refl
    | inr h ↦ rw h refl
  ]

  key_results-answered :
      (r : Status × Bytes × D) → key_results (answered r.0 (r.1 ∷ []) r.2) ≡ seen_key r
  key_results-answered (status, key, d) = elim (Bool-cases (status == hm_success)) [
    | inl h ↦ let e = (beq_iff status hm_success).0 h in rw e refl
    | inr h ↦ rw h refl
  ]

module _ {D : Type 0} (db : Db D) where
  stub-arrived :
      (a : Bytes) (d : D)
      → get_pub_key_by_id_stub db (arrived (a ∷ [])) d ≡ key_out (get_pub_key_by_id db (some a) d)
  unfolding get_pub_key_by_id_stub
  stub-arrived a d = rw (extract_types-buffers buffer_c (a ∷ [])) refl

  get_pub_key-refused :
      (id : Option Bytes) (d : D)
      → is_given id ≡ false
      → get_pub_key_by_id db id d ≡ (hm_invalid_parameter, [], d)
  unfolding get_pub_key_by_id
  get_pub_key-refused id d h = guarded_refused true (is_given id) db.get_pub _ _ h

module _ {D : Type 0} {table : Table (Func D)} (db : Db D) where
  -- Over an idle connection to a server that has the stub, `get_pub_key_by_id_proxy` runs
  -- `get_pub_key_by_id` on the server's database and returns its status and, if that is HM_SUCCESS,
  -- the key. The id and the key each take less than 4 GiB as a message, and the status fits a
  -- uint32_t.
  pub get_pub_key-remote :
      Knows table get_pub_key_by_id_name (get_pub_key_by_id_stub db)
      → (id : Option Bytes) (d : D) → weight (contents id ∷ []) < u32_mod
      → weight ((get_pub_key_by_id db id d).1 ∷ []) < u32_mod
      → (get_pub_key_by_id db id d).0 < u32_mod
      → get_pub_key_by_id_proxy (client_end table) id (idle d)
        ≡ seen_key (get_pub_key_by_id db id d)
  unfolding get_pub_key_by_id_proxy
  get_pub_key-remote k id d small answer word = elim (Bool-cases (is_given id)) [
    | inr h ↦ rw (h, get_pub_key-refused db id d h) refl
    | inl h ↦
        let hi = given_some id h in
        let r = get_pub_key_by_id db id d in
        let same : get_pub_key_by_id db (some (contents id)) d ≡ r = cc in
        let run = stub-arrived db (contents id) d ∙ ap (λ r. key_out r) same ∙ key_out-answer r in
        rw
          (
            h,
            out_call-answered k buffer_c (contents id) [] d r.0 r.1 [] r.2 (omega arith)
                (omega arith) run small answer word,
          )
          (key_results-answered r)
  ]
