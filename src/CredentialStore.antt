-- ===== src/CredentialStore.antt =====
-- src/credential_store/functions.c: the one operation of the credential store over the database that
-- the service is given (`hm_cs_db_t`), its stub on the server and its proxy in the client.
-- The database is a parameter: its state `D` and its function, which may be NULL. Pointers to results
-- are always given, and results are returned; a result that is not stored is empty.
pub mod Remote
pub mod Server
pub mod Client
pub mod Service
use hermes_core.Prelude.{
  ℕ, Bool, true, false, not, ◌&&◌, Option, none, some, List, [], ◌∷◌, if◌then◌else◌, ◌==◌,
}
use hermes_core.Common.Bytes.{Bytes, is_given, contents}
use hermes_core.Common.Memory.{text}
use hermes_core.Common.Status.{Status, hm_success, hm_invalid_parameter}
use hermes_core.Rpc.Calling.{pack_args, extract_types, out_call, buf_at}
use hermes_core.Rpc.Calling.Served.{one, guarded, with_out, extracted}
use hermes_core.Rpc.ParamPack.{Pack, Out, buffer_c_arg}
use hermes_core.Rpc.Server.{Func}
use hermes_core.Rpc.Transport.{Transport}

pub record Db (D : Type 0) : Type 0 where
  pub get_pub : Option (D → Bytes → Status × Bytes × D)

unfoldable pub check_backend : {D : Type 0} → Db D → ℕ
check_backend db = elim db.get_pub [ none ↦ 0 | some get ↦ 1 ]

unfoldable pub get_pub_key_by_id_name : Bytes
get_pub_key_by_id_name = text "hm_credential_store_get_pub_key_by_id"

module _ {D : Type 0} where
  abbrev pub key_out : Status × Bytes × D → Option (Status × Option Pack × D)
  key_out (status, key, d) =
      if not (status == hm_success)
      then some (status, none, d)
      else with_out (pack_args (buffer_c_arg key ∷ [])) d

module _ {D : Type 0} (db : Db D) where
  -- `user_data` is not tested here.
  unfoldable pub get_pub_key_by_id : Option Bytes → D → Status × Bytes × D
  get_pub_key_by_id id d =
      guarded (is_given id) db.get_pub (hm_invalid_parameter, [], d) λ get. get d (contents id)

  unfoldable pub get_pub_key_by_id_stub : Func D
  get_pub_key_by_id_stub p d =
      extracted (extract_types p one) d λ o. key_out (get_pub_key_by_id (buf_at o 0) d)

module _ {S : Type 0} where
  abbrev pub key_results : Status × List Out × S → Status × Bytes × S
  key_results (status, o, s) = (status, contents (buf_at o 0), s)

  unfoldable pub get_pub_key_by_id_proxy : Transport S → Option Bytes → S → Status × Bytes × S
  get_pub_key_by_id_proxy t id s =
      if not (is_given id)
      then (hm_invalid_parameter, [], s)
      else key_results (out_call t get_pub_key_by_id_name (buffer_c_arg (contents id) ∷ []) one s)
