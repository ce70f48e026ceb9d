-- ===== src/Tests/Data.antt =====
-- Packs, functions, servers and databases to run.
use hermes_core.Prelude.{
  ℕ, suc, ◌≡◌, refl, true, Option, none, some, List, [], ◌∷◌, is_empty, if◌then◌else◌, arith,
}
use hermes_core.Common.Bytes.{Bytes}
use hermes_core.Common.HashTable
use hermes_core.Common.HashTable.{Table, hash, hash_loop}
use hermes_core.Common.HashTable.Laws.{IsTable}
use hermes_core.Common.Memory.{text, IsText}
use hermes_core.Common.Status.{hm_success, hm_fail}
use hermes_core.CredentialStore
use hermes_core.DataStore
use hermes_core.KeyStore
use hermes_core.Rpc.Calling.Buffers.{buffers_pack, buffers-IsSendable}
use hermes_core.Rpc.ParamPack.{Pack, buffer, buffer_c}
use hermes_core.Rpc.ParamPack.RoundTrip.{IsSendable}
use hermes_core.Rpc.Server.{Func, reg_funcs}
use hermes_core.Rpc.Server.Register.{reg_funcs-create, is_text-IsText, Registered}

abbrev pub params : Pack
params = buffers_pack buffer_c ((1 ∷ 2 ∷ []) ∷ (3 ∷ []) ∷ [])

abbrev pub params-ok : IsSendable params
params-ok = buffers-IsSendable buffer_c (1 ∷ 2 ∷ []) ((3 ∷ []) ∷ []) (omega arith) (omega arith)

abbrev pub results : Pack
results = buffers_pack buffer ((9 ∷ []) ∷ [])

abbrev pub results-ok : IsSendable results
results-ok = buffers-IsSendable buffer (9 ∷ []) [] (omega arith) (omega arith)

-- Counts its calls.
abbrev pub count : Func ℕ
count p d = some (hm_success, some results, suc d)

abbrev pub count_name : Bytes
count_name = text "count"

abbrev pub count-IsText : IsText count_name
count-IsText = is_text-IsText count_name refl

abbrev pub entries : List (Bytes × Func ℕ)
entries = (count_name, count) ∷ (text "cou", count) ∷ []

abbrev pub server :
    (t : Table (Func ℕ)) × (reg_funcs entries HashTable.create ≡ some (some t))
    × IsTable t
    × Registered t entries
unfolding hash hash_loop
server = reg_funcs-create entries refl

abbrev pub key_set : KeyStore.SetToken Bytes
key_set d block user owner token = (hm_success, token)

abbrev pub key_get : KeyStore.GetToken Bytes
key_get d block user = (if is_empty d then hm_fail else hm_success, d, user, d)

abbrev pub key_del : KeyStore.DelToken Bytes
key_del d block user owner = (hm_success, [])

-- A key store that keeps one token, for everyone.
abbrev pub key_db : KeyStore.Db Bytes
key_db = record {
  user_data = true;
  set_rtoken = some key_set;
  set_wtoken = some key_set;
  get_rtoken = some key_get;
  get_wtoken = some key_get;
  get_indexed_rights = some λ d block index. (hm_success, 7 ∷ [], 3, d);
  del_rtoken = some key_del;
  del_wtoken = some key_del;
}

-- A key store that keeps one token with its owner, for every block and user.
abbrev pub Note : Type 0
Note = Option (Bytes × Bytes)

abbrev pub note_set : KeyStore.SetToken Note
note_set d block user owner token = (hm_success, some (token, owner))

abbrev pub note_get : KeyStore.GetToken Note
note_get none block user = (hm_fail, [], [], none)
note_get (some (token, owner)) block user = (hm_success, token, owner, some (token, owner))

abbrev pub note_del : KeyStore.DelToken Note
note_del d block user owner = (hm_success, none)

abbrev pub note_db : KeyStore.Db Note
note_db = record {
  user_data = true;
  set_rtoken = some note_set;
  set_wtoken = some note_set;
  get_rtoken = some note_get;
  get_wtoken = some note_get;
  get_indexed_rights = some λ d block index. (hm_fail, [], 0, d);
  del_rtoken = some note_del;
  del_wtoken = some note_del;
}

-- A data store that keeps one block.
abbrev pub data_db : DataStore.Db Bytes
data_db = record {
  user_data = true;
  insert_block = some λ d block meta mac. (hm_success, 5 ∷ [], block);
  insert_block_with_id = some λ d id block meta mac. (hm_success, block);
  get_block = some λ d id. (hm_success, d, 6 ∷ [], d);
  update_block = some λ d id block meta mac old_mac. (hm_success, block);
  rem_block = some λ d id old_mac. (hm_success, []);
}

abbrev pub credential_db : CredentialStore.Db Bytes
credential_db = record { get_pub = some λ d id. (hm_success, d, d) }
