-- ===== src/Twitter.antt =====
-- The Twitter side of the bridge: internal/twitter.
pub mod Client
pub mod Tweets
