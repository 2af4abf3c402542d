-- ===== src/FetchTools.antt =====
-- internal/webfetch, internal/fetchdoc and internal/exec: the tools that reach outside.
pub mod Web
pub mod Docs
pub mod Exec
