-- ===== src/Providers/Config.antt =====
-- pkg/llm/config.go and factory.go: which provider a configuration gives.
use docsclaw.Base.{
  [], ℕ, Str, bytes, ◌==◌, Option, none, some, ◌||◌, ◌++◌, if◌then◌else◌, Result, err,
}

-- A number of tokens or of seconds that is negative would go to the provider as it is.
pub record LlmConfig : Type 0 where
  pub provider : Str
  pub api_key : Str
  pub base_url : Str
  pub model : Str
  pub max_tokens : ℕ
  pub timeout : ℕ

abbrev pub provider_anthropic : Str
provider_anthropic = bytes "anthropic"

abbrev pub provider_openai : Str
provider_openai = bytes "openai"

abbrev pub provider_litellm : Str
provider_litellm = bytes "litellm"

abbrev pub default_anthropic_model : Str
default_anthropic_model = bytes "claude-sonnet-4-6"

abbrev pub default_openai_model : Str
default_openai_model = bytes "gpt-4o"

abbrev pub default_litellm_model : Str
default_litellm_model = bytes "qwen3-14b"

abbrev pub default_openai_base_url : Str
default_openai_base_url = bytes "https://api.openai.com/v1"

abbrev pub default_config : LlmConfig
default_config = record {
  provider = provider_anthropic;
  api_key = [];
  base_url = [];
  model = default_anthropic_model;
  max_tokens = 4096;
  timeout = 45;
}

pub default_config_for_provider : Str → LlmConfig
default_config_for_provider provider =
    let cfg : LlmConfig = record default_config { provider = provider } in
    if provider == provider_anthropic || provider == []
    then record cfg { model = default_anthropic_model }
    else if provider == provider_openai
    then record cfg { model = default_openai_model; base_url = default_openai_base_url }
    else if provider == provider_litellm
    then record cfg { model = default_litellm_model }
    else cfg

-- The constructors that the packages register; `none` before they do.
pub record Registered (P : Type 0) : Type 0 where
  pub anthropic : Option (LlmConfig → Result Str P)
  pub openai_compat : Option (LlmConfig → Result Str P)

module _ {P : Type 0} where
  registered_or : Str → Option (LlmConfig → Result Str P) → LlmConfig → Result Str P
  registered_or text none cfg = err text
  registered_or text (some construct) cfg = construct cfg

  pub new_provider : Registered P → LlmConfig → Result Str P
  unfolding registered_or
  new_provider r cfg =
      if cfg.provider == provider_anthropic
      then registered_or
          (bytes
            "anthropic provider not registered (import _ \"github.com/redhat-et/docsclaw/internal/anthropic\")")
          r.anthropic cfg
      else if cfg.provider == provider_openai
          || (cfg.provider == provider_litellm || cfg.provider == [])
      then registered_or
          (bytes
            "openai provider not registered (import _ \"github.com/redhat-et/docsclaw/internal/openai\")")
          r.openai_compat cfg
      else err (bytes "unknown LLM provider: " ++ cfg.provider)
