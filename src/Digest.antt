-- ===== src/Digest.antt =====
-- The autonomous digests: the claude command line writes a text, which the program checks and records.
pub mod Texts
pub mod McpSession
pub mod Invocation
pub mod Prompts
pub mod Docker
pub mod Verify
pub mod Act
pub mod Start
pub mod Claude
pub mod Slack
pub mod Invest
pub mod Executors
mod Tests
