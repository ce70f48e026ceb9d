-- ===== src/KeyStore/Stubs.antt =====
-- The stubs of src/key_store/functions.c: the functions that the server runs on a received pack.
-- `user_data`, `in` and `out` are never NULL in the server's calls.
use hermes_core.Prelude.{
  ℕ, ◌+◌, ◌-◌, ◌^◌, not, Option, none, some, [], ◌∷◌, if◌then◌else◌, ltb, ◌==◌,
}
use hermes_core.Common.Bytes.{Bytes}
use hermes_core.Common.Status.{Status, hm_success}
use hermes_core.KeyStore.{
  Db, set_rtoken, set_wtoken, get_rtoken, get_wtoken, del_rtoken, del_wtoken, get_indexed_rights,
}
use hermes_core.Rpc.Calling.{pack_args, extract_types, buf_at, int_at}
use hermes_core.Rpc.ParamPack.{Pack, type_int32, type_buffer, int_arg, buffer_arg}
use hermes_core.Rpc.Calling.Served.{two, three, four, extracted, with_out, no_out}
use hermes_core.Rpc.Server.{Func}

-- An int32_t that becomes a size_t.
abbrev pub size_of_int32 : ℕ → ℕ
size_of_int32 v = if ltb v (2 ^ 31) then v else 2 ^ 64 - 2 ^ 32 + v

module _ {D : Type 0} where
  abbrev pub token_out : Status × Bytes × Bytes × D → Option (Status × Option Pack × D)
  token_out (status, token, owner, d) =
      if not (status == hm_success)
      then some (status, none, d)
      else with_out (pack_args (buffer_arg token ∷ buffer_arg owner ∷ [])) d

  abbrev pub rights_out : Option (Status × Bytes × ℕ × D) → Option (Status × Option Pack × D)
  rights_out none = none
  rights_out (some (status, user, mask, d)) =
      if not (status == hm_success)
      then some (status, none, d)
      else with_out (pack_args (buffer_arg user ∷ int_arg mask ∷ [])) d

  module _ (db : Db D) where
    unfoldable pub set_rtoken_stub : Func D
    set_rtoken_stub p d =
        extracted (extract_types p four) d
          λ o. no_out (some (set_rtoken db (buf_at o 0) (buf_at o 1) (buf_at o 2) (buf_at o 3) d))

    unfoldable pub set_wtoken_stub : Func D
    set_wtoken_stub p d =
        extracted (extract_types p four) d
          λ o. no_out (some (set_wtoken db (buf_at o 0) (buf_at o 1) (buf_at o 2) (buf_at o 3) d))

    unfoldable pub get_rtoken_stub : Func D
    get_rtoken_stub p d =
        extracted (extract_types p two) d λ o. token_out (get_rtoken db (buf_at o 0) (buf_at o 1) d)

    unfoldable pub get_wtoken_stub : Func D
    get_wtoken_stub p d =
        extracted (extract_types p two) d λ o. token_out (get_wtoken db (buf_at o 0) (buf_at o 1) d)

    unfoldable pub del_rtoken_stub : Func D
    del_rtoken_stub p d =
        extracted (extract_types p three) d
          λ o. no_out (del_rtoken db (buf_at o 0) (buf_at o 1) (buf_at o 2) d)

    unfoldable pub del_wtoken_stub : Func D
    del_wtoken_stub p d =
        extracted (extract_types p three) d
          λ o. no_out (del_wtoken db (buf_at o 0) (buf_at o 1) (buf_at o 2) d)

    unfoldable pub get_indexed_rights_stub : Func D
    get_indexed_rights_stub p d =
        extracted (extract_types p (type_buffer ∷ type_int32 ∷ [])) d
          λ o. rights_out (get_indexed_rights db (buf_at o 0) (size_of_int32 (int_at o 1)) d)
