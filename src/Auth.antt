-- ===== src/Auth.antt =====
-- backend/auth: signed tokens (Tokens) and the sessions that stand behind them (Sessions).
pub mod Tokens
pub mod Sessions
pub mod Accounts
pub mod Sample
pub mod Tests
