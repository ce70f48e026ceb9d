-- ===== src/Rpc.antt =====
-- src/rpc: parameter packs, lists of buffers, the server and the synchronous client.
pub mod Transport
pub mod BuffersList
pub mod ParamPack
pub mod Server
pub mod Client
pub mod Loopback
pub mod Calling
pub mod Service
