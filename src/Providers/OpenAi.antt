-- ===== src/Providers/OpenAi.antt =====
-- internal/openai/openai.go: the provider for OpenAI-compatible APIs.
pub mod Wire
pub mod Reading
pub mod Client
