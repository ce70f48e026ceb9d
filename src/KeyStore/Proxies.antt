-- ===== src/KeyStore/Proxies.antt =====
-- The proxies of src/key_store/functions.c: the client's side of each operation. `client` and the
-- pointers to results are given; a result that is not stored is empty.
use hermes_core.Prelude.{ℕ, ◌%◌, not, ◌&&◌, Option, List, [], ◌∷◌, if◌then◌else◌}
use hermes_core.Common.Bytes.{Bytes, u32_mod, is_given, contents}
use hermes_core.Common.Status.{Status, hm_invalid_parameter}
use hermes_core.KeyStore.Names.{
  set_rtoken_name, set_wtoken_name, get_rtoken_name, get_wtoken_name, del_rtoken_name,
  del_wtoken_name, get_indexed_rights_name,
}
use hermes_core.Rpc.Calling.Served.{two}
use hermes_core.Rpc.Calling.{status_call, out_call, buf_at, int_at}
use hermes_core.Rpc.ParamPack.{Out, type_int32, type_buffer, int_arg, buffer_c_arg}
use hermes_core.Rpc.Transport.{Transport}

module _ {S : Type 0} where
  abbrev pub token_results : Status × List Out × S → Status × Bytes × Bytes × S
  token_results (status, o, s) = (status, contents (buf_at o 0), contents (buf_at o 1), s)

  abbrev pub rights_results : Status × List Out × S → Status × Bytes × ℕ × S
  rights_results (status, o, s) = (status, contents (buf_at o 0), int_at o 1, s)

  module _ (t : Transport S) where
    unfoldable pub set_proxy :
        Bytes → Option Bytes → Option Bytes → Option Bytes → Option Bytes → S → Status × S
    set_proxy name block user owner token s =
        if not (is_given block && is_given user && is_given owner && is_given token)
        then (hm_invalid_parameter, s)
        else status_call t name
            (buffer_c_arg (contents block)
              ∷ buffer_c_arg (contents user)
              ∷ buffer_c_arg (contents owner)
              ∷ buffer_c_arg (contents token)
              ∷ [])
            s

    unfoldable pub set_rtoken_proxy :
        Option Bytes → Option Bytes → Option Bytes → Option Bytes → S → Status × S
    set_rtoken_proxy = set_proxy set_rtoken_name

    unfoldable pub set_wtoken_proxy :
        Option Bytes → Option Bytes → Option Bytes → Option Bytes → S → Status × S
    set_wtoken_proxy = set_proxy set_wtoken_name

    unfoldable pub get_proxy : Bytes → Option Bytes → Option Bytes → S → Status × Bytes × Bytes × S
    get_proxy name block user s =
        if not (is_given block && is_given user)
        then (hm_invalid_parameter, [], [], s)
        else token_results (
            out_call t name (buffer_c_arg (contents block) ∷ buffer_c_arg (contents user) ∷ []) two
              s)

    unfoldable pub get_rtoken_proxy : Option Bytes → Option Bytes → S → Status × Bytes × Bytes × S
    get_rtoken_proxy = get_proxy get_rtoken_name

    unfoldable pub get_wtoken_proxy : Option Bytes → Option Bytes → S → Status × Bytes × Bytes × S
    get_wtoken_proxy = get_proxy get_wtoken_name

    unfoldable pub del_proxy : Bytes → Option Bytes → Option Bytes → Option Bytes → S → Status × S
    del_proxy name block user owner s =
        if not (is_given block && is_given user && is_given owner)
        then (hm_invalid_parameter, s)
        else status_call t name
            (buffer_c_arg (contents block)
              ∷ buffer_c_arg (contents user)
              ∷ buffer_c_arg (contents owner)
              ∷ [])
            s

    unfoldable pub del_rtoken_proxy : Option Bytes → Option Bytes → Option Bytes → S → Status × S
    del_rtoken_proxy = del_proxy del_rtoken_name

    unfoldable pub del_wtoken_proxy : Option Bytes → Option Bytes → Option Bytes → S → Status × S
    del_wtoken_proxy = del_proxy del_wtoken_name

    -- The index, a size_t, is passed as an int32_t.
    unfoldable pub get_indexed_rights_proxy : Option Bytes → ℕ → S → Status × Bytes × ℕ × S
    get_indexed_rights_proxy block index s =
        if not (is_given block)
        then (hm_invalid_parameter, [], 0, s)
        else rights_results (
            out_call t get_indexed_rights_name
              (buffer_c_arg (contents block) ∷ int_arg (index % u32_mod) ∷ [])
              (type_buffer ∷ type_int32 ∷ []) s)
