-- ===== src/Security.antt =====
-- Authorisation of tool calls and of document paths: src/shichimimi_agent/security.
pub mod Fnmatch
pub mod PathPolicy
pub mod PolicyEngine
