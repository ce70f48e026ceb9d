-- ===== src/DataStore/Proxies.antt =====
-- The proxies of src/data_store/functions.c: the client's side of each operation. `client` and the
-- pointers to results are given; a result that is not stored is empty.
use hermes_core.Prelude.{not, ◌&&◌, Option, List, [], ◌∷◌, if◌then◌else◌}
use hermes_core.Common.Bytes.{Bytes, is_given, contents}
use hermes_core.Common.Status.{Status, hm_invalid_parameter}
use hermes_core.DataStore.Names.{
  create_block_name, create_block_with_id_name, read_block_name, update_block_name,
  delete_block_name,
}
use hermes_core.Rpc.Calling.{status_call, out_call, buf_at}
use hermes_core.Rpc.Calling.Served.{one, two}
use hermes_core.Rpc.ParamPack.{Out, buffer_c_arg}
use hermes_core.Rpc.Transport.{Transport}

module _ {S : Type 0} where
  abbrev pub id_results : Status × List Out × S → Status × Bytes × S
  id_results (status, o, s) = (status, contents (buf_at o 0), s)

  abbrev pub block_results : Status × List Out × S → Status × Bytes × Bytes × S
  block_results (status, o, s) = (status, contents (buf_at o 0), contents (buf_at o 1), s)

  module _ (t : Transport S) where
    unfoldable pub create_block_proxy :
        Option Bytes → Option Bytes → Option Bytes → S → Status × Bytes × S
    create_block_proxy block meta mac s =
        if not (is_given block && is_given meta && is_given mac)
        then (hm_invalid_parameter, [], s)
        else id_results (
            out_call t create_block_name
              (buffer_c_arg (contents block)
                ∷ buffer_c_arg (contents meta)
                ∷ buffer_c_arg (contents mac)
                ∷ [])
              one s)

    unfoldable pub create_block_with_id_proxy :
        Option Bytes → Option Bytes → Option Bytes → Option Bytes → S → Status × S
    create_block_with_id_proxy id block meta mac s =
        if not (is_given block && is_given meta && is_given mac && is_given id)
        then (hm_invalid_parameter, s)
        else status_call t create_block_with_id_name
            (buffer_c_arg (contents id)
              ∷ buffer_c_arg (contents block)
              ∷ buffer_c_arg (contents meta)
              ∷ buffer_c_arg (contents mac)
              ∷ [])
            s

    unfoldable pub read_block_proxy : Option Bytes → S → Status × Bytes × Bytes × S
    read_block_proxy id s =
        if not (is_given id)
        then (hm_invalid_parameter, [], [], s)
        else block_results (out_call t read_block_name (buffer_c_arg (contents id) ∷ []) two s)

    unfoldable pub update_block_proxy :
        Option Bytes → Option Bytes → Option Bytes → Option Bytes → Option Bytes → S → Status × S
    update_block_proxy id block meta mac old_mac s =
        if not (is_given id && is_given block && is_given meta && is_given mac && is_given old_mac)
        then (hm_invalid_parameter, s)
        else status_call t update_block_name
            (buffer_c_arg (contents id)
              ∷ buffer_c_arg (contents block)
              ∷ buffer_c_arg (contents meta)
              ∷ buffer_c_arg (contents mac)
              ∷ buffer_c_arg (contents old_mac)
              ∷ [])
            s

    unfoldable pub delete_block_proxy : Option Bytes → Option Bytes → S → Status × S
    delete_block_proxy id old_mac s =
        if not (is_given id && is_given old_mac)
        then (hm_invalid_parameter, s)
        else status_call t delete_block_name
            (buffer_c_arg (contents id) ∷ buffer_c_arg (contents old_mac) ∷ []) s
