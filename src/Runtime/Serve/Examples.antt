-- ===== src/Runtime/Serve/Examples.antt =====
-- An agent with inbound authentication, and a request for its health.
use docsclaw.Base.{ℕ, bytes, some, none, ok, [], ◌∷◌}
use docsclaw.Auth.Middleware.{HttpRequest, authorization, handle}
use docsclaw.Auth.Policy.{Config, with_defaults}
use docsclaw.Auth.Verify.Examples.{codec}
use docsclaw.Bridge.{SessionStore}
use docsclaw.Runtime.AgentConfig.{auth_config}
use docsclaw.Runtime.Build.{AgentRuntime}
use docsclaw.Runtime.ConfigDir.{fallback_card}
use docsclaw.Runtime.Samples.{world, cmd_config, agent_config, auth_block}
use docsclaw.Runtime.Serve.{SessionStores, AuthWorld, ServeHandler, exempt_paths, served}
use docsclaw.Tools.Examples.{runtime}

abbrev store : SessionStore ℕ
store = record {
  get_or_create = λ key prompt w. (ok tt, w);
  append = λ key m w. (ok tt, w);
  append_and_snapshot = λ key m w. (ok [], w);
}

abbrev stores : SessionStores ℕ
stores = record {
  new_memory_store = λ ttl. store;
  new_sqlite_store = λ path ttl w. (ok (store, λ v. v), w);
  dir = λ s. s;
  mkdir_all = λ s w. (none, w);
  chmod = λ s w. (none, w);
  getenv = λ s. [];
}

abbrev auth : AuthWorld ℕ
auth = record {
  parse_url = λ s. some (record { scheme = bytes "https"; host = bytes "issuer" });
  codec = codec;
}

abbrev agent : AgentRuntime ℕ ℕ
agent = record {
  cfg = cmd_config;
  agent_cfg = some agent_config;
  provider = none;
  registry = none;
  loop_config = record { max_iterations = 0; max_result_bytes = 0; hook = none };
  agent_card = fallback_card;
  prompt_variants = [];
  base_prompt = [];
  skills_summary = [];
  closers = [];
}

abbrev policy : Config
policy = with_defaults (auth_config auth_block exempt_paths 30_000_000_000)

abbrev handler : ServeHandler ℕ ℕ
handler = served world stores auth runtime 8000 agent none (λ v. v) (handle codec policy)

abbrev health : HttpRequest
health = record { path = bytes "/health"; headers = (authorization, bytes "x") ∷ [] }

abbrev health_sent : HttpRequest
health_sent = record { path = bytes "/health"; headers = [] }
