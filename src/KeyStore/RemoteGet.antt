-- ===== src/KeyStore/RemoteGet.antt =====
-- The getters' proxies of src/key_store/functions.c over an idle connection.
use hermes_core.Prelude.{
  ◌<◌, ◌≡◌, ◌∙◌, ap, refl, Bool, true, false, ◌&&◌, Option, none, some, [], ◌∷◌, arith, inl, inr,
  beq_iff, ◌==◌, if◌then◌else◌, Bool-cases,
}
use hermes_core.Common.Bytes.{Bytes, u32_mod, is_given, contents}
use hermes_core.Common.HashTable.{Table}
use hermes_core.Common.Status.{Status, hm_success, hm_invalid_parameter}
use hermes_core.KeyStore.{Db, GetToken, get_token, get_rtoken, get_wtoken}
use hermes_core.KeyStore.Names.{get_rtoken_name, get_wtoken_name}
use hermes_core.KeyStore.Proxies.{get_rtoken_proxy, get_wtoken_proxy, get_proxy, token_results}
use hermes_core.KeyStore.Stubs.{get_rtoken_stub, get_wtoken_stub, token_out}
use hermes_core.Rpc.Calling.{pack_args}
use hermes_core.Rpc.Calling.Buffers.{weight, buffers_pack, extract_types-buffers}
use hermes_core.Rpc.Calling.Remote.{Knows}
use hermes_core.Rpc.Calling.Answered.{given_some, given_and, answer_of, answered, out_call-answered}
use hermes_core.Rpc.Calling.Stores.{arrived}
use hermes_core.Rpc.Loopback.{World, client_end}
use hermes_core.Rpc.Loopback.Calls.{idle}
use hermes_core.Rpc.ParamPack
use hermes_core.Rpc.ParamPack.{buffer, buffer_c, buffer_arg, buffer_c_arg, created}
use hermes_core.Rpc.Server.{Func}

-- What the client sees of a getter's results: nothing unless the status is HM_SUCCESS.
abbrev pub seen : {D : Type 0} → Status × Bytes × Bytes × D → Status × Bytes × Bytes × World D
seen (status, token, owner, d) =
    if status == hm_success then (status, token, owner, idle d) else (status, [], [], idle d)

pack_args-two :
    (a b : Bytes)
    → pack_args (buffer_arg a ∷ buffer_arg b ∷ []) ≡ created (buffers_pack buffer (a ∷ b ∷ []))
unfolding pack_args ParamPack.create
pack_args-two a b = refl

get_token_refused :
    {D : Type 0} (user_data : Bool) (get : Option (GetToken D)) (a b : Option Bytes) (d : D)
    → (is_given a && is_given b) ≡ false
    → get_token user_data get a b d ≡ (hm_invalid_parameter, [], [], d)
unfolding get_token
get_token_refused user_data none a b d h = refl
get_token_refused false (some g) a b d h = refl
get_token_refused true (some g) a b d h = rw h refl

module _ {D : Type 0} where
  token_out-answer :
      (r : Status × Bytes × Bytes × D) → token_out r ≡ answer_of buffer r.0 (r.1 ∷ r.2 ∷ []) r.3
  token_out-answer (status, token, owner, d) = elim (Bool-cases (status == hm_success)) [
    | inl h ↦ rw (h, pack_args-two token owner) refl
    | inr h ↦ rw h refl
  ]

  token_results-answered :
      (r : Status × Bytes × Bytes × D) → token_results (answered r.0 (r.1 ∷ r.2 ∷ []) r.3) ≡ seen r
  token_results-answered (status, token, owner, d) = elim (Bool-cases (status == hm_success)) [
    | inl h ↦ let e = (beq_iff status hm_success).0 h in rw e refl
    | inr h ↦ rw h refl
  ]

get_proxy-remote :
    {D : Type 0} {table : Table (Func D)} {name : Bytes} {f : Func D} (k : Knows table name f)
    (op : Option Bytes → Option Bytes → D → Status × Bytes × Bytes × D) (a b : Option Bytes) (d : D)
    → ((is_given a && is_given b) ≡ false → op a b d ≡ (hm_invalid_parameter, [], [], d))
    → f (arrived (contents a ∷ contents b ∷ [])) d
      ≡ token_out (op (some (contents a)) (some (contents b)) d)
    → weight (contents a ∷ contents b ∷ []) < u32_mod
    → weight ((op a b d).1 ∷ (op a b d).2 ∷ []) < u32_mod
    → (op a b d).0 < u32_mod
    → get_proxy (client_end table) name a b (idle d) ≡ seen (op a b d)
unfolding get_proxy
get_proxy-remote k op a b d refused runs small answer word =
    elim (Bool-cases (is_given a && is_given b)) [
      | inr h ↦ rw (h, refused h) refl
      | inl h ↦
          let (hb, h1) = given_and (is_given a) b h in
          let ha = given_some a h1 in
          let r = op a b d in
          let same : op (some (contents a)) (some (contents b)) d ≡ r = cc in
          let run = runs ∙ ap (λ r. token_out r) same ∙ token_out-answer r in
          rw
            (
              h,
              out_call-answered k buffer (contents a) (contents b ∷ []) d r.0 r.1 (r.2 ∷ []) r.3
                  (omega arith) (omega arith) run small answer word,
            )
            (token_results-answered r)
    ]

get_rtoken_stub-arrived :
    {D : Type 0} (db : Db D) (a b : Bytes) (d : D)
    → get_rtoken_stub db (arrived (a ∷ b ∷ [])) d ≡ token_out (get_rtoken db (some a) (some b) d)
unfolding get_rtoken_stub
get_rtoken_stub-arrived db a b d = rw (extract_types-buffers buffer_c (a ∷ b ∷ [])) refl

get_wtoken_stub-arrived :
    {D : Type 0} (db : Db D) (a b : Bytes) (d : D)
    → get_wtoken_stub db (arrived (a ∷ b ∷ [])) d ≡ token_out (get_wtoken db (some a) (some b) d)
unfolding get_wtoken_stub
get_wtoken_stub-arrived db a b d = rw (extract_types-buffers buffer_c (a ∷ b ∷ [])) refl

get_rtoken-refused :
    {D : Type 0} (db : Db D) (a b : Option Bytes) (d : D)
    → (is_given a && is_given b) ≡ false
    → get_rtoken db a b d ≡ (hm_invalid_parameter, [], [], d)
unfolding get_rtoken
get_rtoken-refused db = get_token_refused db.user_data db.get_rtoken

get_wtoken-refused :
    {D : Type 0} (db : Db D) (a b : Option Bytes) (d : D)
    → (is_given a && is_given b) ≡ false
    → get_wtoken db a b d ≡ (hm_invalid_parameter, [], [], d)
unfolding get_wtoken
get_wtoken-refused db = get_token_refused db.user_data db.get_wtoken

-- Over an idle connection to a server that has the stub, `get_rtoken_proxy` runs `get_rtoken` on the
-- server's database and returns its status and, if that is HM_SUCCESS, the token and the owner's id;
-- on any other status both are empty. The arguments and the results each take less than 4 GiB as a
-- message, and the status fits a uint32_t.
pub get_rtoken-remote :
    {D : Type 0} {table : Table (Func D)} (db : Db D)
    → Knows table get_rtoken_name (get_rtoken_stub db)
    → (block user : Option Bytes) (d : D) → weight (contents block ∷ contents user ∷ []) < u32_mod
    → weight ((get_rtoken db block user d).1 ∷ (get_rtoken db block user d).2 ∷ []) < u32_mod
    → (get_rtoken db block user d).0 < u32_mod
    → get_rtoken_proxy (client_end table) block user (idle d) ≡ seen (get_rtoken db block user d)
unfolding get_rtoken_proxy
get_rtoken-remote db k block user d =
    get_proxy-remote k (get_rtoken db) block user d (get_rtoken-refused db block user d)
      (get_rtoken_stub-arrived db (contents block) (contents user) d)

-- Over an idle connection to a server that has the stub, `get_wtoken_proxy` runs `get_wtoken` on the
-- server's database and returns its status and, if that is HM_SUCCESS, the token and the owner's id;
-- on any other status both are empty. The arguments and the results each take less than 4 GiB as a
-- message, and the status fits a uint32_t.
pub get_wtoken-remote :
    {D : Type 0} {table : Table (Func D)} (db : Db D)
    → Knows table get_wtoken_name (get_wtoken_stub db)
    → (block user : Option Bytes) (d : D) → weight (contents block ∷ contents user ∷ []) < u32_mod
    → weight ((get_wtoken db block user d).1 ∷ (get_wtoken db block user d).2 ∷ []) < u32_mod
    → (get_wtoken db block user d).0 < u32_mod
    → get_wtoken_proxy (client_end table) block user (idle d) ≡ seen (get_wtoken db block user d)
unfolding get_wtoken_proxy
get_wtoken-remote db k block user d =
    get_proxy-remote k (get_wtoken db) block user d (get_wtoken-refused db block user d)
      (get_wtoken_stub-arrived db (contents block) (contents user) d)
