-- ===== src/DataStore/Names.antt =====
-- The names of src/data_store/functions.h under which the server registers the stubs.
use hermes_core.Common.Bytes.{Bytes}
use hermes_core.Common.Memory.{text}

unfoldable pub create_block_name : Bytes
create_block_name = text "hm_data_store_create_block"

unfoldable pub create_block_with_id_name : Bytes
create_block_with_id_name = text "hm_data_store_create_block_with_id"

unfoldable pub read_block_name : Bytes
read_block_name = text "hm_data_store_read_block"

unfoldable pub update_block_name : Bytes
update_block_name = text "hm_data_store_update_block"

unfoldable pub delete_block_name : Bytes
delete_block_name = text "hm_data_store_delete_block"
