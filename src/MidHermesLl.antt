-- ===== src/MidHermesLl.antt =====
-- src/mid_hermes_ll: users, tokens, rights lists and blocks, over stores that are interfaces
-- (include/hermes/mid_hermes_ll/interfaces) and over the Themis library, which is a parameter.
pub mod Run
pub mod Utils
pub mod Stores
pub mod User
pub mod Token
pub mod Block
pub mod RightsList
