-- ===== src/Runtime.antt =====
-- internal/cmd: from the configuration directory to the agent that serves.
pub mod AgentConfig
pub mod ConfigDir
pub mod BuiltIns
pub mod Build
pub mod Toolset
pub mod Serve
pub mod Samples
