-- ===== src/Web.antt =====
-- web_client.py: the stores and the decisions of the web client. A JSON file is the dictionary that
-- reading it gives, a request's session and the clock are arguments, and HTTP is left out.
pub mod Accounts
pub mod BackupCodes
pub mod Throttle
pub mod Sessions
pub mod Peers
pub mod Frames
pub mod Prekeys
pub mod Retry
pub mod Sending
pub mod Messages
pub mod GroupMail
