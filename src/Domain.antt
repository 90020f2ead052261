-- ===== src/Domain.antt =====
-- The services of internal/domain.
pub mod Users
pub mod Tweets
pub mod Inbox
