-- ===== src/KeyStore/RemoteRights.antt =====
-- The proxy of the indexed rights of src/key_store/functions.c over an idle connection.
use hermes_core.Prelude.{
  ℕ, ◌+◌, ◌%◌, ◌^◌, ◌<◌, ◌≡◌, ◌∙◌, sym, ap, refl, false, ◌&&◌, Option, none, some, [], ◌∷◌, arith,
  length, inl, inr, Bool-cases, beq_iff, ◌==◌, if◌then◌else◌, ltb_of_lt,
}
use hermes_core.Common.Bytes.{Bytes, u32_mod, is_given, contents}
use hermes_core.Common.HashTable.{Table}
use hermes_core.Common.Status.{Status, hm_success, hm_invalid_parameter}
use hermes_core.KeyStore.{Db, is_there, get_indexed_rights}
use hermes_core.KeyStore.Names.{get_indexed_rights_name}
use hermes_core.KeyStore.Proxies.{get_indexed_rights_proxy, rights_results}
use hermes_core.KeyStore.Stubs.{get_indexed_rights_stub, rights_out}
use hermes_core.Rpc.Calling.{pack_args, extract_types, out_call}
use hermes_core.Rpc.Calling.Answered.{given_some, not_success}
use hermes_core.Rpc.Calling.Remote.{Knows, out_call-failed, out_call-remote}
use hermes_core.Rpc.Loopback.{World, client_end}
use hermes_core.Rpc.Loopback.Calls.{idle}
use hermes_core.Rpc.ParamPack
use hermes_core.Rpc.ParamPack.{
  BufferKind, buffer, buffer_c, Pack, Node, buf_node, int_node, Arg, buffer_arg, buffer_c_arg,
  int_arg, created, type_buffer, type_int32, buf_out, int_out,
}
use hermes_core.Rpc.ParamPack.Arguments.{pack_of, extract-out_of}
use hermes_core.Rpc.ParamPack.Length.{total}
use hermes_core.Rpc.ParamPack.RoundTrip.{IsSendable, delivered}
use hermes_core.Rpc.Server.{Func}

-- What the client sees of the results: nothing unless the status is HM_SUCCESS.
abbrev pub seen_rights : {D : Type 0} → Status × Bytes × ℕ × D → Status × Bytes × ℕ × World D
seen_rights (status, user, mask, d) =
    if status == hm_success then (status, user, mask, idle d) else (status, [], 0, idle d)

abbrev seen_option :
    {D : Type 0}
    → Status × Bytes × ℕ × World D
    → Option (Status × Bytes × ℕ × D)
    → Status × Bytes × ℕ × World D
seen_option otherwise none = otherwise
seen_option otherwise (some r) = seen_rights r

-- A buffer and an integer, as the call and its answer are.
pair_pack : BufferKind → Bytes → ℕ → Pack
pair_pack k b v = pack_of (buf_node k b ∷ int_node v ∷ [])

pair-IsSendable :
    (k : BufferKind) (b : Bytes) (v : ℕ)
    → length b + 20 < u32_mod
    → v < u32_mod
    → IsSendable (pair_pack k b v)
unfolding pair_pack total
pair-IsSendable k b v small word = record {
  fresh = refl;
  full = refl;
  few = omega arith;
  words = (omega arith, (word, tt));
  small = omega arith;
}

extract_types-pair :
    (k : BufferKind) (b : Bytes) (v : ℕ)
    → extract_types (delivered (pair_pack k b v)) (type_buffer ∷ type_int32 ∷ [])
      ≡ (hm_success, buf_out b ∷ int_out v ∷ [])
unfolding extract_types pair_pack
extract_types-pair k b v = extract-out_of (delivered (pair_pack k b v))

pack_args-pair :
    (b : Bytes) (v : ℕ)
    → v < u32_mod
    → (pack_args (buffer_c_arg b ∷ int_arg v ∷ []) ≡ created (pair_pack buffer_c b v))
      × (pack_args (buffer_arg b ∷ int_arg v ∷ []) ≡ created (pair_pack buffer b v))
unfolding pack_args ParamPack.create pair_pack
pack_args-pair b v word =
    let cut : v % u32_mod ≡ v = omega arith in
    (
      ap (λ (n : ℕ). created (pack_of (buf_node buffer_c b ∷ int_node n ∷ []))) cut,
      ap (λ (n : ℕ). created (pack_of (buf_node buffer b ∷ int_node n ∷ []))) cut,
    )

rights_stub-arrived :
    {D : Type 0} (db : Db D) (b : Bytes) (index : ℕ) (d : D)
    → index < 2 ^ 31
    → get_indexed_rights_stub db (delivered (pair_pack buffer_c b index)) d
      ≡ rights_out (get_indexed_rights db (some b) index d)
unfolding get_indexed_rights_stub
rights_stub-arrived db b index d h =
    rw (extract_types-pair buffer_c b index, ltb_of_lt index (2 ^ 31) h) refl

module _ {D : Type 0} where
  rights_out-success :
      (user : Bytes) (mask : ℕ) (d : D)
      → mask < u32_mod
      → rights_out (some (hm_success, user, mask, d))
        ≡ some (hm_success, some (pair_pack buffer user mask), d)
  rights_out-success user mask d word = rw ((pack_args-pair user mask word).1) refl

  rights_out-failure :
      (status : Status) (user : Bytes) (mask : ℕ) (d : D)
      → (status == hm_success) ≡ false
      → rights_out (some (status, user, mask, d)) ≡ some (status, none, d)
  rights_out-failure status user mask d h = rw h refl

get_indexed_rights-refused :
    {D : Type 0} (db : Db D) (block : Option Bytes) (index : ℕ) (d : D)
    → is_given block ≡ false
    → get_indexed_rights db block index d ≡ some (hm_invalid_parameter, [], 0, d)
unfolding get_indexed_rights
get_indexed_rights-refused db block index d h =
    let refused : (db.user_data
          && is_there db.get_wtoken
          && is_there db.del_wtoken
          && is_given block)
        ≡ false =
      ground (arith, h) in
    rw refused refl

module _ {D : Type 0} {table : Table (Func D)} (db : Db D)
    (k : Knows table get_indexed_rights_name (get_indexed_rights_stub db)) where
  -- The call behind the guard.
  rights_call-seen :
      (b : Bytes) (index : ℕ) (d : D) (status : Status) (user : Bytes) (mask : ℕ) (d' : D)
      → length b + 20 < u32_mod
      → index < 2 ^ 31
      → get_indexed_rights db (some b) index d ≡ some (status, user, mask, d')
      → length user + 20 < u32_mod
      → mask < u32_mod
      → status < u32_mod
      → rights_results (
          out_call
            (client_end table)
            get_indexed_rights_name
            (buffer_c_arg b ∷ int_arg index ∷ [])
            (type_buffer ∷ type_int32 ∷ [])
            (idle d))
        ≡ seen_rights (status, user, mask, d')
  rights_call-seen b index d status user mask d' small short runs answer word_mask word =
      let args = buffer_c_arg b ∷ int_arg index ∷ [] in
      let made = (pack_args-pair b index (omega arith)).0 in
      let sends = pair-IsSendable buffer_c b index small (omega arith) in
      let stub = rights_stub-arrived db b index d short ∙ ap (λ r. rights_out r) runs in
      elim (Bool-cases (status == hm_success)) [
        | inl h ↦
            let e = (beq_iff status hm_success).0 h in
            let run =
              stub
              ∙ ap (λ (s : ℕ). rights_out (some (s, user, mask, d'))) e
              ∙ rights_out-success user mask d' word_mask in
            let out =
              out_call-remote k args made sends (type_buffer ∷ type_int32 ∷ []) d
                (pair_pack buffer user mask) d' run
                (pair-IsSendable buffer user mask answer word_mask) in
            rw (out, extract_types-pair buffer user mask, e) refl
        | inr h ↦
            let out =
              out_call-failed k args made sends (type_buffer ∷ type_int32 ∷ []) d status d'
                (stub ∙ rights_out-failure status user mask d' h) (not_success status h) word in
            rw (out, h) refl
      ]

  -- Over an idle connection to a server that has the stub, for an index that fits an int32_t,
  -- `get_indexed_rights_proxy` runs `get_indexed_rights` with that index on the server's database and
  -- returns its status and, if that is HM_SUCCESS, the user's id and the rights mask, refused arguments
  -- included; if `get_indexed_rights` does not call through NULL. The block's id and the user's id are each shorter
  -- than 4 GiB by 20 bytes, and the mask and the status fit a uint32_t.
  pub get_indexed_rights-remote :
      (block : Option Bytes) (index : ℕ) (d : D) (r : Status × Bytes × ℕ × D)
      → length (contents block) + 20 < u32_mod
      → index < 2 ^ 31
      → get_indexed_rights db block index d ≡ some r
      → length r.1 + 20 < u32_mod
      → r.2 < u32_mod
      → r.0 < u32_mod
      → get_indexed_rights_proxy (client_end table) block index (idle d) ≡ seen_rights r
  unfolding get_indexed_rights_proxy
  get_indexed_rights-remote block index d r small short runs answer word_mask word =
      elim (Bool-cases (is_given block)) [
        | inl given ↦
            let same : get_indexed_rights db (some (contents block)) index d ≡ some r =
              ap (λ b. get_indexed_rights db b index d) (sym (given_some block given)) ∙ runs in
            let cut : index % u32_mod ≡ index = omega arith in
            rw (given, cut)
              (rights_call-seen (contents block) index d r.0 r.1 r.2 r.3 small short same answer
                word_mask word)
        | inr missing ↦
            let same : some (hm_invalid_parameter, [], 0, d) ≡ some r =
              sym (get_indexed_rights-refused db block index d missing) ∙ runs in
            rw missing (ap (seen_option (hm_invalid_parameter, [], 0, idle d)) same)
      ]
