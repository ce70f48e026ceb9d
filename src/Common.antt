-- ===== src/Common.antt =====
-- src/common and include/hermes/common: what the other components rest on.
pub mod Status
pub mod Bytes
pub mod Memory
pub mod HashTable
pub mod MemCmp
pub mod Buffer
