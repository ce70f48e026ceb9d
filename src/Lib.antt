-- ===== src/Lib.antt =====
-- Hermes-core: end-to-end access control over stored blocks. Clients and the three services (the key
-- store, the data store and the credential store) talk by remote procedure calls; this library models
-- the calls from the bytes on the transport up to the operations of the services.
--
-- The program's parts, the files that model them and how they correspond:
-- - Common/Status, Common/Bytes, Common/Memory: the codes of include/hermes/common/errors.h, byte
--   strings (a pointer with its length is `Option Bytes`, `none` being NULL), the little-endian
--   uint32_t, C strings and `memcmp`.
-- - Common/HashTable: src/common/hm_hash_table.c. `get_chain` and `set_chain` are the loops of
--   hm_hash_table_get and hm_hash_table_set over one chain, with a read that leaves a key's memory
--   as a result of its own: a comparison reads the whole length of the key that is looked for, of both
--   keys. Chains has what the loops do to a chain, and Laws states what a table stands for.
-- - Common/MemCmp: src/common/mem_cmp.c, with & and | on 32 bits written out.
-- - Common/Buffer: src/common/buffer.c. Blocks of memory are numbered, so that a position in a block
--   that realloc has given up can be told; the codes below zero are 32-bit ints.
-- - Rpc/BuffersList: src/rpc/buffers_list.c. A list is the sequence of its nodes' data.
-- - Rpc/ParamPack: src/rpc/param_pack.c. `create` and `extract` are the variadic functions behind
--   HM_PARAM_PACK and HM_PARAM_EXTRACT, on lists of marked arguments; Wire has the output side
--   (get_whole_length, write, send), Parse the input side (check_buf, read, receive).
-- - Rpc/Transport: the callbacks of include/hermes/rpc/transport.h, a parameter of the model: a record
--   of `send` and `recv` over a state. Channel names what two ends must do to understand one another,
--   and Rpc/Loopback has ends that do.
-- - Rpc/Server, Rpc/Client: src/rpc/server.c and src/rpc/client.c. A registered function takes the
--   received pack and the state behind `user_data` to a status, a pack and a new state.
-- - Rpc/Loopback: a client and a server joined by two queues of bytes; the server handles one call
--   when the client waits for bytes that are not there.
-- - Rpc/Calling: what the proxies and stubs of the stores have in common.
-- - KeyStore, DataStore, CredentialStore: functions.c and server.c under src/key_store,
--   src/data_store and src/credential_store. Each has the operations over the database's functions (a
--   parameter, any of which may be NULL), the stubs that the server registers (Stubs) and the proxies
--   of the client (Proxies). Remote and its siblings relate a proxy to its operation; KeyStore/Granting
--   has two calls in a row.
-- - KeyStore/Client, DataStore/Client, CredentialStore/Client: client.c of the three stores.
-- - Rpc/Service, and Service beside each store: service.c of the three stores, whose loops are alike.
--   A run is told, turn by turn, whether another thread has set the flag, and if not, whether a request
--   comes; where none comes it waits in recv, and does not look at the flag again.
-- - MidHermesLl: src/mid_hermes_ll. Run has how a function there ends: with a result, NULL, a crash (a
--   NULL that is followed, a failed assertion, memory that is overwritten or freed twice) or out of fuel, the state coming back in each case, and
--   Run/Safe the functions that do not crash. Utils is utils.c over Themis and Soter, a parameter
--   (`Themis`; Utils/Laws has what they document). Stores has the interfaces of
--   include/hermes/mid_hermes_ll/interfaces as records of functions, and Stores/Laws what a store
--   promises, by views of its state. User is mid_hermes_ll_buffer.c and mid_hermes_ll_user.c, Token is
--   mid_hermes_ll_token.c, Block, Block/Rights and Block/Stored are mid_hermes_ll_block.c, and RightsList is
--   mid_hermes_ll_rights_list.c, which the blocks use as the sequence of a list's nodes.
-- - MidHermes: src/mid_hermes/mid_hermes.c, and KeyStoreImpl, DataStoreImpl and CredentialStoreImpl
--   the *_impl.c beside it, which make a store of a client. Access has the abstract state: which users
--   can read and update which blocks, by the views of the stores. ReadBack, Sharing, Updating and
--   Refusing relate the operations to it, over Loading, Making, Saving, Creating,
--   Others, Granting and Resealing;
--   Safety has how the operations end.
-- - Prelude: shared names, tests and list functions. Tests: concrete runs.
--
-- Bounds and fuel. A uint32_t is a natural number with `% 2 ^ 32` where it can wrap, a size_t that is
-- summed has `% 2 ^ 64`. The extraction of a list of buffers runs on as much fuel as there are bytes;
-- the two loops of the other direction run on fuel that is given, since they do not end. The loop over
-- the users of a block runs on fuel that is given too, as many turns as the store's iterator makes. All
-- other loops are structural. Undefined behaviour (a call through NULL, a read outside a buffer) is a
-- result of its own.
--
-- Not modelled: allocation failures (the code asserts), freeing and the ownership of memory (but that
-- hm_asym_decrypt overwrites memory on a failure, and that mid_hermes_create_block frees a user twice,
-- which are crashes), and pointers to results that are NULL; the variadic functions of src/common/buffer.c, which call
-- functions for strings that are defined nowhere; src/secure_transport. The bindings gohermes and
-- pyhermes, docs/examples and tests are left out.
pub mod Prelude
pub mod Common
pub mod Rpc
pub mod KeyStore
pub mod DataStore
pub mod CredentialStore
pub mod MidHermesLl
pub mod MidHermes
pub mod Tests
