-- ===== src/Relay.antt =====
-- server.py: the relay. The state, the replies, and one module for each group of handlers.
pub mod State
pub mod Reply
pub mod Accounts
pub mod Auth
pub mod Assembly
pub mod Groups
pub mod Invites
pub mod GroupMail
pub mod Files
pub mod Disk
pub mod Limiter
pub mod Evict
pub mod Dispatch
