-- ===== src/History.antt =====
-- What every run of the server keeps.
pub mod Reach
pub mod Tables
pub mod Tokens
pub mod Replay
pub mod Keys
pub mod Logs
pub mod Columns
pub mod Revocation
pub mod Sessions
pub mod PasskeyRows
pub mod Passkeys
pub mod Lifecycle
