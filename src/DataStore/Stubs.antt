-- ===== src/DataStore/Stubs.antt =====
-- The stubs of src/data_store/functions.c: the functions that the server runs on a received pack.
-- `user_data`, `in` and `out` are never NULL in the server's calls.
use hermes_core.Prelude.{not, Option, none, some, [], ◌∷◌, if◌then◌else◌, ◌==◌}
use hermes_core.Common.Bytes.{Bytes}
use hermes_core.Common.Status.{Status, hm_success}
use hermes_core.DataStore.{
  Db, create_block, create_block_with_id, read_block, update_block, delete_block,
}
use hermes_core.Rpc.Calling.{pack_args, extract_types, buf_at}
use hermes_core.Rpc.Calling.Served.{one, two, three, four, five, with_out, no_out, extracted}
use hermes_core.Rpc.ParamPack.{Pack, buffer_arg}
use hermes_core.Rpc.Server.{Func}

module _ {D : Type 0} where
  abbrev pub id_out : Status × Bytes × D → Option (Status × Option Pack × D)
  id_out (status, id, d) =
      if not (status == hm_success)
      then some (status, none, d)
      else with_out (pack_args (buffer_arg id ∷ [])) d

  abbrev pub block_out : Status × Bytes × Bytes × D → Option (Status × Option Pack × D)
  block_out (status, block, meta, d) =
      if not (status == hm_success)
      then some (status, none, d)
      else with_out (pack_args (buffer_arg block ∷ buffer_arg meta ∷ [])) d

  module _ (db : Db D) where
    unfoldable pub create_block_stub : Func D
    create_block_stub p d =
        extracted (extract_types p three) d
          λ o. id_out (create_block db (buf_at o 0) (buf_at o 1) (buf_at o 2) d)

    unfoldable pub create_block_with_id_stub : Func D
    create_block_with_id_stub p d = extracted (extract_types p four) d λ o.
        no_out
          (some (create_block_with_id db (buf_at o 0) (buf_at o 1) (buf_at o 2) (buf_at o 3) d))

    unfoldable pub read_block_stub : Func D
    read_block_stub p d =
        extracted (extract_types p one) d λ o. block_out (read_block db (buf_at o 0) d)

    unfoldable pub update_block_stub : Func D
    update_block_stub p d = extracted (extract_types p five) d λ o.
        no_out (
          some (update_block db (buf_at o 0) (buf_at o 1) (buf_at o 2) (buf_at o 3) (buf_at o 4) d))

    unfoldable pub delete_block_stub : Func D
    delete_block_stub p d =
        extracted (extract_types p two) d
          λ o. no_out (some (delete_block db (buf_at o 0) (buf_at o 1) d))
