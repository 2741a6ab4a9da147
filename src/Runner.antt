-- ===== src/Runner.antt =====
-- The programs that call tools and record what they found: hooks, proxies and runner.
pub mod Gate
pub mod CollectX
pub mod StockResearch
