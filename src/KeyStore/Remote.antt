-- ===== src/KeyStore/Remote.antt =====
-- The proxies of src/key_store/functions.c over an idle connection to a server that knows the stubs.
use hermes_core.Prelude.{
  ℕ, ◌<◌, ◌≡◌, ◌∙◌, ap, refl, Bool, true, false, ◌&&◌, Option, none, some, [], ◌∷◌, arith, inl, inr,
  Bool-cases,
}
use hermes_core.Common.Bytes.{Bytes, u32_mod, is_given, contents}
use hermes_core.Common.HashTable.{Table}
use hermes_core.Common.Status.{Status, hm_invalid_parameter}
use hermes_core.KeyStore.{Db, SetToken, GetToken, set_token, set_rtoken, set_wtoken}
use hermes_core.KeyStore.Names.{set_rtoken_name, set_wtoken_name}
use hermes_core.KeyStore.Proxies.{set_rtoken_proxy, set_wtoken_proxy, set_proxy}
use hermes_core.KeyStore.Stubs.{set_rtoken_stub, set_wtoken_stub}
use hermes_core.Rpc.Calling.Buffers.{weight, extract_types-buffers}
use hermes_core.Rpc.Calling.Remote.{Knows}
use hermes_core.Rpc.Calling.Stores.{arrived, status_call-buffers}
use hermes_core.Rpc.Calling.Answered.{given_some, given_and}
use hermes_core.Rpc.Loopback.{client_end}
use hermes_core.Rpc.Loopback.Calls.{idle}
use hermes_core.Rpc.ParamPack.{buffer_c}
use hermes_core.Rpc.Server.{Func}

abbrev sizes : Option Bytes → Option Bytes → Option Bytes → Option Bytes → ℕ
sizes a b c e = weight (contents a ∷ contents b ∷ contents c ∷ contents e ∷ [])

-- The stub of a setter runs it on what arrived.
set_rtoken_stub-arrived :
    {D : Type 0} (db : Db D) (a b c e : Bytes) (d : D)
    → set_rtoken_stub db (arrived (a ∷ b ∷ c ∷ e ∷ [])) d
      ≡ (let r = set_rtoken db (some a) (some b) (some c) (some e) d in some (r.0, none, r.1))
unfolding set_rtoken_stub
set_rtoken_stub-arrived db a b c e d = rw (extract_types-buffers buffer_c (a ∷ b ∷ c ∷ e ∷ [])) refl

set_token_refused :
    {D : Type 0} (user_data : Bool) (get : Option (GetToken D)) (set : Option (SetToken D))
    (a b c e : Option Bytes) (d : D)
    → (is_given a && is_given b && is_given c && is_given e) ≡ false
    → set_token user_data get set a b c e d ≡ (hm_invalid_parameter, d)
unfolding set_token
set_token_refused user_data none set a b c e d h = refl
set_token_refused user_data (some g) none a b c e d h = refl
set_token_refused false (some g) (some s) a b c e d h = refl
set_token_refused true (some g) (some s) a b c e d h = rw h refl

set_rtoken-refused :
    {D : Type 0} (db : Db D) (a b c e : Option Bytes) (d : D)
    → (is_given a && is_given b && is_given c && is_given e) ≡ false
    → set_rtoken db a b c e d ≡ (hm_invalid_parameter, d)
unfolding set_rtoken
set_rtoken-refused db = set_token_refused db.user_data db.get_rtoken db.set_rtoken

set_wtoken-refused :
    {D : Type 0} (db : Db D) (a b c e : Option Bytes) (d : D)
    → (is_given a && is_given b && is_given c && is_given e) ≡ false
    → set_wtoken db a b c e d ≡ (hm_invalid_parameter, d)
unfolding set_wtoken
set_wtoken-refused db = set_token_refused db.user_data db.get_wtoken db.set_wtoken

set_wtoken_stub-arrived :
    {D : Type 0} (db : Db D) (a b c e : Bytes) (d : D)
    → set_wtoken_stub db (arrived (a ∷ b ∷ c ∷ e ∷ [])) d
      ≡ (let r = set_wtoken db (some a) (some b) (some c) (some e) d in some (r.0, none, r.1))
unfolding set_wtoken_stub
set_wtoken_stub-arrived db a b c e d = rw (extract_types-buffers buffer_c (a ∷ b ∷ c ∷ e ∷ [])) refl

set_proxy-remote :
    {D : Type 0} {table : Table (Func D)} {name : Bytes} {f : Func D} (k : Knows table name f)
    (op : Option Bytes → Option Bytes → Option Bytes → Option Bytes → D → Status × D)
    (a b c e : Option Bytes) (d : D)
    → ((is_given a && is_given b && is_given c && is_given e) ≡ false
        → op a b c e d ≡ (hm_invalid_parameter, d))
    → f (arrived (contents a ∷ contents b ∷ contents c ∷ contents e ∷ [])) d ≡ (
        let r =
          op (some (contents a)) (some (contents b)) (some (contents c)) (some (contents e)) d in
        some (r.0, none, r.1))
    → sizes a b c e < u32_mod
    → (op a b c e d).0 < u32_mod
    → set_proxy (client_end table) name a b c e (idle d) ≡ (let r = op a b c e d in (r.0, idle r.1))
unfolding set_proxy
set_proxy-remote k op a b c e d refused runs small word =
    elim (Bool-cases (is_given a && is_given b && is_given c && is_given e)) [
      | inr h ↦ rw (h, refused h) refl
      | inl h ↦
          let (he, h1) = given_and (is_given a && is_given b && is_given c) e h in
          let (hc, h2) = given_and (is_given a && is_given b) c h1 in
          let (hb, h3) = given_and (is_given a) b h2 in
          let ha = given_some a h3 in
          let r = op a b c e d in
          let same : op (some (contents a)) (some (contents b)) (some (contents c))
                (some (contents e)) d
              ≡ r =
            cc in
          rw h (
            status_call-buffers k (contents a) (contents b ∷ contents c ∷ contents e ∷ [])
              (omega arith) small d r.0 r.1 (runs ∙ ap (λ r. some (r.0, none, r.1)) same) word)
    ]

-- Over an idle connection to a server that has the stub, `set_rtoken_proxy` does to the server's
-- database what `set_rtoken` does, and returns its status, refused arguments included. The four
-- arguments take less than 4 GiB as a message, and the status fits a uint32_t.
pub set_rtoken-remote :
    {D : Type 0} {table : Table (Func D)} (db : Db D)
    → Knows table set_rtoken_name (set_rtoken_stub db)
    → (block user owner token : Option Bytes) (d : D) → sizes block user owner token < u32_mod
    → (set_rtoken db block user owner token d).0 < u32_mod
    → set_rtoken_proxy (client_end table) block user owner token (idle d)
      ≡ (let r = set_rtoken db block user owner token d in (r.0, idle r.1))
unfolding set_rtoken_proxy
set_rtoken-remote db k block user owner token d =
    set_proxy-remote k (set_rtoken db) block user owner token d
      (set_rtoken-refused db block user owner token d)
      (set_rtoken_stub-arrived db (contents block) (contents user) (contents owner) (contents token)
        d)

-- Over an idle connection to a server that has the stub, `set_wtoken_proxy` does to the server's
-- database what `set_wtoken` does, and returns its status, refused arguments included. The four
-- arguments take less than 4 GiB as a message, and the status fits a uint32_t.
pub set_wtoken-remote :
    {D : Type 0} {table : Table (Func D)} (db : Db D)
    → Knows table set_wtoken_name (set_wtoken_stub db)
    → (block user owner token : Option Bytes) (d : D) → sizes block user owner token < u32_mod
    → (set_wtoken db block user owner token d).0 < u32_mod
    → set_wtoken_proxy (client_end table) block user owner token (idle d)
      ≡ (let r = set_wtoken db block user owner token d in (r.0, idle r.1))
unfolding set_wtoken_proxy
set_wtoken-remote db k block user owner token d =
    set_proxy-remote k (set_wtoken db) block user owner token d
      (set_wtoken-refused db block user owner token d)
      (set_wtoken_stub-arrived db (contents block) (contents user) (contents owner) (contents token)
        d)
