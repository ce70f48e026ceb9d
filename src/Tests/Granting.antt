-- ===== src/Tests/Granting.antt =====
-- A token that is granted and read.
use hermes_core.Prelude.{◌≡◌, refl, sym, ap, Option, none, some, [], ◌∷◌, arith}
use hermes_core.Common.Bytes.{Bytes}
use hermes_core.Common.HashTable.{Table}
use hermes_core.Common.Memory.{memcmp}
use hermes_core.Common.Status.{hm_success}
use hermes_core.KeyStore
use hermes_core.KeyStore.{same_id, set_token, set_rtoken}
use hermes_core.KeyStore.Granting.{Keeps, set_rtoken-get_rtoken}
use hermes_core.KeyStore.Proxies.{set_rtoken_proxy, get_rtoken_proxy}
use hermes_core.KeyStore.Remote.{set_rtoken-remote}
use hermes_core.KeyStore.Server.{key_server_complete}
use hermes_core.Rpc.Loopback.{client_end}
use hermes_core.Rpc.Loopback.Calls.{idle}
use hermes_core.Rpc.Server.{Func}
use hermes_core.Tests.Data.{Note, note_db, note_get, note_set}

abbrev table : Table (Func Note)
unfolding KeyStore.check_backend
table = (key_server_complete note_db refl).0

abbrev block : Option Bytes
block = some (1 ∷ [])

abbrev user : Option Bytes
user = some (2 ∷ [])

abbrev token : Option Bytes
token = some (4 ∷ 4 ∷ [])

note-Keeps : Keeps note_get note_set
note-Keeps d d' b u o t h = let same : some (t, o) ≡ d' = ap (λ p. p.1) h in rw (sym same) refl

-- The user is the owner.
granted :
    set_rtoken_proxy (client_end table) block user user token (idle none)
    ≡ (hm_success, idle (some (4 ∷ 4 ∷ [], 2 ∷ [])))
unfolding KeyStore.check_backend set_rtoken set_token same_id memcmp
granted =
    set_rtoken-remote note_db (key_server_complete note_db refl).2 block user user token none
      (omega arith) (omega arith)

set_rtoken-get_rtoken_example :
    get_rtoken_proxy (client_end table) block user (idle (some (4 ∷ 4 ∷ [], 2 ∷ [])))
    ≡ (hm_success, 4 ∷ 4 ∷ [], 2 ∷ [], idle (some (4 ∷ 4 ∷ [], 2 ∷ [])))
unfolding KeyStore.check_backend set_rtoken set_token same_id memcmp
set_rtoken-get_rtoken_example =
    set_rtoken-get_rtoken note_db note_get note_set note-Keeps refl refl refl
      (key_server_complete note_db refl).2 (key_server_complete note_db refl).4 block user user
      token none (some (4 ∷ 4 ∷ [], 2 ∷ [])) refl (omega arith) (omega arith) granted
