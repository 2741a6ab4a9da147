-- ===== src/Config.antt =====
-- The checks of the configuration files: src/shichimimi_agent/config.
pub mod Validator
