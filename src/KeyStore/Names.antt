-- ===== src/KeyStore/Names.antt =====
-- The names of src/key_store/functions.h under which the server registers the stubs.
use hermes_core.Common.Bytes.{Bytes}
use hermes_core.Common.Memory.{text}

unfoldable pub set_rtoken_name : Bytes
set_rtoken_name = text "hm_key_store_set_rtoken"

unfoldable pub set_wtoken_name : Bytes
set_wtoken_name = text "hm_key_store_set_wtoken"

unfoldable pub get_rtoken_name : Bytes
get_rtoken_name = text "hm_key_store_get_rtoken"

unfoldable pub get_wtoken_name : Bytes
get_wtoken_name = text "hm_key_store_get_wtoken"

unfoldable pub del_rtoken_name : Bytes
del_rtoken_name = text "hm_key_store_del_rtoken"

unfoldable pub del_wtoken_name : Bytes
del_wtoken_name = text "hm_key_store_del_wtoken"

unfoldable pub get_indexed_rights_name : Bytes
get_indexed_rights_name = text "hm_key_store_get_indexed_rights"
