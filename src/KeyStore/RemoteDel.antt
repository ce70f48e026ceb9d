-- ===== src/KeyStore/RemoteDel.antt =====
-- The deletions' proxies of src/key_store/functions.c, and that of the indexed rights, over an idle
-- connection.
use hermes_core.Prelude.{
  ◌<◌, ◌≡◌, ◌∙◌, sym, ap, refl, Bool, true, false, ◌&&◌, Option, none, some, [], ◌∷◌, arith, inl,
  inr, Bool-cases,
}
use hermes_core.Common.Bytes.{Bytes, u32_mod, is_given, contents}
use hermes_core.Common.HashTable.{Table}
use hermes_core.Common.Status.{Status, hm_invalid_parameter}
use hermes_core.KeyStore.{Db, GetToken, DelToken, del_token, del_rtoken, del_wtoken, is_there}
use hermes_core.KeyStore.Names.{del_rtoken_name, del_wtoken_name}
use hermes_core.KeyStore.Proxies.{del_rtoken_proxy, del_wtoken_proxy, del_proxy}
use hermes_core.KeyStore.Stubs.{del_rtoken_stub, del_wtoken_stub}
use hermes_core.Rpc.Calling.Answered.{given_some, given_and}
use hermes_core.Rpc.Calling.Buffers.{weight, extract_types-buffers}
use hermes_core.Rpc.Calling.Remote.{Knows}
use hermes_core.Rpc.Calling.Served.{no_out}
use hermes_core.Rpc.Calling.Stores.{arrived, status_call-buffers}
use hermes_core.Rpc.Loopback.{client_end}
use hermes_core.Rpc.Loopback.Calls.{idle}
use hermes_core.Rpc.ParamPack.{buffer_c}
use hermes_core.Rpc.Server.{Func}

del_rtoken_stub-arrived :
    {D : Type 0} (db : Db D) (a b c : Bytes) (d : D)
    → del_rtoken_stub db (arrived (a ∷ b ∷ c ∷ [])) d
      ≡ no_out (del_rtoken db (some a) (some b) (some c) d)
unfolding del_rtoken_stub
del_rtoken_stub-arrived db a b c d = rw (extract_types-buffers buffer_c (a ∷ b ∷ c ∷ [])) refl

del_wtoken_stub-arrived :
    {D : Type 0} (db : Db D) (a b c : Bytes) (d : D)
    → del_wtoken_stub db (arrived (a ∷ b ∷ c ∷ [])) d
      ≡ no_out (del_wtoken db (some a) (some b) (some c) d)
unfolding del_wtoken_stub
del_wtoken_stub-arrived db a b c d = rw (extract_types-buffers buffer_c (a ∷ b ∷ c ∷ [])) refl

del_token_refused :
    {D : Type 0} (user_data checked : Bool) (get : Option (GetToken D)) (del : Option (DelToken D))
    (a b c : Option Bytes) (d : D)
    → (is_given a && is_given b && is_given c) ≡ false
    → del_token user_data checked get del a b c d ≡ some (hm_invalid_parameter, d)
unfolding del_token
del_token_refused user_data checked get none a b c d h = refl
del_token_refused false checked get (some del) a b c d h = refl
del_token_refused true false get (some del) a b c d h = refl
del_token_refused true true get (some del) a b c d h = rw h refl

del_rtoken-refused :
    {D : Type 0} (db : Db D) (a b c : Option Bytes) (d : D)
    → (is_given a && is_given b && is_given c) ≡ false
    → del_rtoken db a b c d ≡ some (hm_invalid_parameter, d)
unfolding del_rtoken
del_rtoken-refused db =
    del_token_refused db.user_data (is_there db.get_rtoken) db.get_wtoken db.del_rtoken

del_wtoken-refused :
    {D : Type 0} (db : Db D) (a b c : Option Bytes) (d : D)
    → (is_given a && is_given b && is_given c) ≡ false
    → del_wtoken db a b c d ≡ some (hm_invalid_parameter, d)
unfolding del_wtoken
del_wtoken-refused db =
    del_token_refused db.user_data (is_there db.get_wtoken) db.get_wtoken db.del_wtoken

del_proxy-remote :
    {D : Type 0} {table : Table (Func D)} {name : Bytes} {f : Func D} (k : Knows table name f)
    (op : Option Bytes → Option Bytes → Option Bytes → D → Option (Status × D))
    (a b c : Option Bytes) (d : D) (r : Status × D)
    → ((is_given a && is_given b && is_given c) ≡ false
        → op a b c d ≡ some (hm_invalid_parameter, d))
    → f (arrived (contents a ∷ contents b ∷ contents c ∷ [])) d
      ≡ no_out (op (some (contents a)) (some (contents b)) (some (contents c)) d)
    → weight (contents a ∷ contents b ∷ contents c ∷ []) < u32_mod
    → op a b c d ≡ some r
    → r.0 < u32_mod
    → del_proxy (client_end table) name a b c (idle d) ≡ (r.0, idle r.1)
unfolding del_proxy
del_proxy-remote k op a b c d r refused runs small done word =
    elim (Bool-cases (is_given a && is_given b && is_given c)) [
      | inr h ↦
          let same : some (hm_invalid_parameter, d) ≡ some r = sym (refused h) ∙ done in
          rw h (
            ap (λ o. elim o [ none ↦ (hm_invalid_parameter, idle d) | some r ↦ (r.0, idle r.1) ])
              same)
      | inl h ↦
          let (hc, h1) = given_and (is_given a && is_given b) c h in
          let (hb, h2) = given_and (is_given a) b h1 in
          let ha = given_some a h2 in
          let same : op (some (contents a)) (some (contents b)) (some (contents c)) d ≡ some r =
            cc in
          rw h (
            status_call-buffers k (contents a) (contents b ∷ contents c ∷ []) (omega arith) small d
              r.0 r.1 (runs ∙ ap (λ r. no_out r) same) word)
    ]

-- Over an idle connection to a server that has the stub, `del_rtoken_proxy` does to the server's
-- database what `del_rtoken` does and returns its status, refused arguments included, if `del_rtoken`
-- does not call through NULL. The arguments take less than 4 GiB as a message, and the status fits a
-- uint32_t.
pub del_rtoken-remote :
    {D : Type 0} {table : Table (Func D)} (db : Db D)
    → Knows table del_rtoken_name (del_rtoken_stub db)
    → (block user owner : Option Bytes) (d : D) (r : Status × D)
    → weight (contents block ∷ contents user ∷ contents owner ∷ []) < u32_mod
    → del_rtoken db block user owner d ≡ some r
    → r.0 < u32_mod
    → del_rtoken_proxy (client_end table) block user owner (idle d) ≡ (r.0, idle r.1)
unfolding del_rtoken_proxy
del_rtoken-remote db k block user owner d r =
    del_proxy-remote k (del_rtoken db) block user owner d r
      (del_rtoken-refused db block user owner d)
      (del_rtoken_stub-arrived db (contents block) (contents user) (contents owner) d)

-- Over an idle connection to a server that has the stub, `del_wtoken_proxy` does to the server's
-- database what `del_wtoken` does and returns its status, refused arguments included, if `del_wtoken`
-- does not call through NULL. The arguments take less than 4 GiB as a message, and the status fits a
-- uint32_t.
pub del_wtoken-remote :
    {D : Type 0} {table : Table (Func D)} (db : Db D)
    → Knows table del_wtoken_name (del_wtoken_stub db)
    → (block user owner : Option Bytes) (d : D) (r : Status × D)
    → weight (contents block ∷ contents user ∷ contents owner ∷ []) < u32_mod
    → del_wtoken db block user owner d ≡ some r
    → r.0 < u32_mod
    → del_wtoken_proxy (client_end table) block user owner (idle d) ≡ (r.0, idle r.1)
unfolding del_wtoken_proxy
del_wtoken-remote db k block user owner d r =
    del_proxy-remote k (del_wtoken db) block user owner d r
      (del_wtoken-refused db block user owner d)
      (del_wtoken_stub-arrived db (contents block) (contents user) (contents owner) d)
