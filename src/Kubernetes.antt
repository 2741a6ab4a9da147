-- ===== src/Kubernetes.antt =====
-- The launchers of Jobs through the API of the cluster.
pub mod ApiClient
pub mod Shell
pub mod JobName
pub mod RunnerJob
pub mod Backend
pub mod TaskRun
pub mod ClaudeJob
mod Tests
mod RunTests
