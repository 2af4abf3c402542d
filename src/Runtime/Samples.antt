-- ===== src/Runtime/Samples.antt =====
-- A world in which the configuration directory holds a prompt and an agent-config.yaml.
use docsclaw.Base.{
  ℕ, Str, bytes, ◌==◌, ◌++◌, pos, none, some, [], ◌∷◌, true, false, if◌then◌else◌, err, ok,
}
use docsclaw.FileTools.Examples.{files}
use docsclaw.McpClient.Examples.{sdk}
use docsclaw.Memory.{Contents, contents, missing}
use docsclaw.Peers.Call.Examples.{calls}
use docsclaw.Peers.Card.{ecdsa_key}
use docsclaw.FetchTools.Web
use docsclaw.FetchTools.Docs
use docsclaw.Retrieval
use docsclaw.Runtime.AgentConfig.{A2aPeer, AgentConfig, InboundAuthCfg, ConfigCodec}
use docsclaw.Runtime.ConfigDir.{CmdConfig, DirCodec}
use docsclaw.Runtime.Toolset.{World}

abbrev pub auth_block : InboundAuthCfg
auth_block = record {
  enabled = true;
  issuer = bytes "https://issuer";
  jwks_url = bytes "https://issuer/keys";
  audience = bytes "docsclaw";
  required_scopes = [];
  allowed_callers = [];
  clock_skew = bytes "30s";
}

abbrev pub peer : A2aPeer
peer = record {
  name = bytes "reviewer";
  url = bytes "http://reviewer";
  description = [];
  timeout_seconds = pos 60;
  card_public_key = bytes "key.pem";
  card_key = none;
}

abbrev pub agent_config : AgentConfig
agent_config = record {
  tools = record {
    allowed = bytes "exec" ∷ [];
    exec = record { timeout = 0; max_output = 0 };
    allowed_hosts = [];
    workspace = [];
    mcp = [];
  };
  max_iterations = 0;
  rag = none;
  skills_dir = [];
  document_services = (bytes "hr", bytes "http://hr") ∷ [];
  inbound_auth = some auth_block;
  a2a_peers = peer ∷ [];
}

abbrev pub config_codec : ConfigCodec
config_codec = record {
  unmarshal = λ _. ok agent_config;
  parse_url = λ _. ok (record { scheme = bytes "http"; host = bytes "host" });
  parse_duration = λ _. ok 30_000_000_000;
  is_abs = λ _. false;
  join_path = λ dir name. dir ++ (bytes "/" ++ name);
  quoted = λ s. s;
  key_files = record {
    read_file = λ _. ok (bytes "pem");
    decode_pem = λ s. some s;
    parse_pkix = λ s. ok (ecdsa_key true s);
    parse_pkcs1 = λ _. err [];
  };
}

-- The two files that are there.
abbrev pub directory : Str → Contents
directory path =
    if path == bytes "/c/system-prompt.txt"
    then contents (bytes "Be kind.")
    else if path == bytes "/c/agent-config.yaml"
    then contents (bytes "tools: ...")
    else missing

abbrev pub dir_codec : DirCodec
dir_codec = record {
  join_path = λ dir name. dir ++ (bytes "/" ++ name);
  unmarshal_card = λ e. err e;
  unmarshal_variants = λ e. err e;
  unmarshal_tools = λ e. err e;
  to_lower = λ s. s;
}

abbrev pub world : World ℕ ℕ ℕ
world = record {
  config = config_codec;
  dir = dir_codec;
  read_file = λ w. directory;
  read_text = λ w path. err path;
  read_context = λ w workspace name. none;
  mkdir_all = λ path w. (none, w);
  shell = record {
    matches = λ _ _. false;
    run = λ _ _ w. (record { output = []; run_err = none; deadline_exceeded = false }, w);
  };
  web = record {
    parse_url = λ e. err e;
    to_lower = λ s. s;
    get = λ _ _ w. (Web.WebReply.not_sent [], w);
  };
  files = files;
  disk = record {
    read_file = λ _ w. missing;
    dir = λ s. s;
    mkdir_all = λ _ w. (none, w);
    open_append = λ _ w. (ok 1, w);
    chmod = λ _ w. (none, w);
    last_byte = λ _ w. none;
    now = λ w. [];
    write = λ _ _ w. (none, w);
    close = λ _ w. (none, w);
  };
  mcp = sdk;
  rag = record {
    post = λ _ _ w. (Retrieval.Posted.not_sent [], w);
    marshal_str = λ s. s;
    marshal_query = λ s. s;
    decode = λ e. err e;
    score_text = λ s. s;
    positive_int = λ s. none;
  };
  docs = record {
    path_escape = λ s. s;
    decode = λ e. err e;
    quoted = λ s. s;
    sort_strings = λ l. l;
    get = λ _ w. (Docs.DocReply.not_sent [], w);
    texts = record { unmarshal_error = λ _. none; status_text = λ _. []; to_lower = λ s. s };
  };
  calls = calls;
  verified = λ w. [];
  keep_verified = λ m w. w;
  providers = record { anthropic = none; openai_compat = none };
  tree = λ w path. none;
  description_in = λ s. none;
  yaml_in = λ w s. none;
}

abbrev pub cmd_config : CmdConfig
cmd_config = record {
  host = [];
  config_dir = bytes "/c";
  skills_dir = [];
  workspace = bytes "/w";
  workspace_profile = [];
  llm = record {
    provider = [];
    api_key = [];
    base_url = [];
    model = [];
    max_tokens = 1;
    timeout = 1;
  };
  session_db = [];
}
