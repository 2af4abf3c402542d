-- ===== src/Providers.antt =====
-- The LLM providers: pkg/llm/config.go and factory.go, internal/openai and internal/anthropic.
pub mod Config
pub mod Honest
pub mod OpenAi
pub mod Anthropic
