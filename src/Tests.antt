-- ===== src/Tests.antt =====
-- Concrete runs of the modelled code.
mod Data
mod Rpc
mod Packs
mod Memory
mod KeyStore
mod Granting
mod DataStore
mod Toy
mod Worlds
mod Later
mod MidHermes
