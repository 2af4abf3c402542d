-- ===== src/Runtime/ConfigDir.antt =====
-- internal/cmd/serve.go: the files of the configuration directory, and the choice of a prompt.
use docsclaw.Base.{
  ℕ, Str, bytes, ◌==◌, Map, Option, none, some, List, [], ◌∷◌, ◌++◌, Bool, not, ◌&&◌, ◌||◌, leb,
  eqb, if◌then◌else◌, Result, ok, err,
}
use docsclaw.Text.{trim_space}
use docsclaw.Memory.{Contents, contents, missing, unreadable}
use docsclaw.Peers.Denials.{contains}
use docsclaw.Skills.Cards.{AgentSkill}
use docsclaw.Manifests.{ToolsJson}
use docsclaw.Providers.Config.{LlmConfig}

-- The parts of a2a.AgentCard that the program sets or reads; an interface is its URL.
pub record AgentCard : Type 0 where
  pub name : Str
  pub description : Str
  pub version : Str
  pub skills : List AgentSkill
  pub supported_interfaces : List Str

-- encoding/json, filepath.Join and strings.ToLower.
pub record DirCodec : Type 0 where
  pub join_path : Str → Str → Str
  pub unmarshal_card : Str → Result Str AgentCard
  pub unmarshal_variants : Str → Result Str (Map Str)
  pub unmarshal_tools : Str → Result Str ToolsJson
  pub to_lower : Str → Str

abbrev pub fallback_card : AgentCard
fallback_card = record {
  name = bytes "docsclaw";
  description = bytes "DocsClaw Agent";
  version = bytes "1.0.0";
  skills = [];
  supported_interfaces = [];
}

-- The bytes of `[a-zA-Z0-9 _-]`; all others are taken out.
is_kept : ℕ → Bool
is_kept b =
    (leb 97 b && leb b 122)
    || (leb 65 b && leb b 90)
    || (leb 48 b && leb b 57)
    || eqb b 32
    || eqb b 95
    || eqb b 45

pub sanitize_tool_name : Str → Str
unfolding is_kept
sanitize_tool_name [] = []
sanitize_tool_name (b ∷ s) = let rest = sanitize_tool_name s in if is_kept b then b ∷ rest else rest

unfoldable pub resolve_workspace : Str → Str → Str
resolve_workspace cfg_workspace flag_workspace =
    if not (trim_space cfg_workspace == [])
    then trim_space cfg_workspace
    else if not (trim_space flag_workspace == [])
    then trim_space flag_workspace
    else bytes "/workspace"

-- What the commands read of the configuration.
pub record CmdConfig : Type 0 where
  pub host : Str
  pub config_dir : Str
  pub skills_dir : Str
  pub workspace : Str
  pub workspace_profile : Str
  pub llm : LlmConfig
  pub session_db : Str

or_env : Str → Str → Str
or_env value env = if value == [] then env else value

-- `loadConfig` behind config.Load; `getenv` is os.Getenv.
pub load_config : (Str → Str) → Result Str CmdConfig → Result Str CmdConfig
unfolding or_env
load_config getenv (err e) = err (bytes "failed to load config: " ++ e)
load_config getenv (ok cfg) = ok (record cfg {
  config_dir = or_env cfg.config_dir (bytes "/config/agent");
  llm = record cfg.llm {
    provider = or_env cfg.llm.provider (getenv (bytes "LLM_PROVIDER"));
    api_key =
        or_env (or_env cfg.llm.api_key (getenv (bytes "LLM_API_KEY")))
          (getenv (bytes "ANTHROPIC_API_KEY"));
    base_url = or_env cfg.llm.base_url (getenv (bytes "LLM_BASE_URL"));
    model = or_env cfg.llm.model (getenv (bytes "LLM_MODEL"));
  };
})

module _ (codec : DirCodec) where
  unfoldable pub load_system_prompt : (Str → Contents) → Str → Result Str Str
  load_system_prompt read config_dir =
      let path = codec.join_path config_dir (bytes "system-prompt.txt") in
      elim (read path) [
        | missing ↦ err (
            bytes "failed to read system prompt: open "
            ++ (path ++ bytes ": no such file or directory"))
        | unreadable e ↦ err (bytes "failed to read system prompt: " ++ e)
        | contents text ↦
            if trim_space text == []
            then err (bytes "system prompt is empty: " ++ path)
            else ok (trim_space text)
      ]

  unfoldable pub load_agent_card : (Str → Contents) → Str → Result Str AgentCard
  load_agent_card read config_dir =
      elim (read (codec.join_path config_dir (bytes "agent-card.json"))) [
        | missing ↦ ok fallback_card
        | unreadable e ↦ err (bytes "failed to read agent card: " ++ e)
        | contents text ↦ elim (codec.unmarshal_card text) [
          | err e ↦ err (bytes "failed to parse agent card: " ++ e)
          | ok card ↦ ok card
        ]
      ]

  unfoldable pub load_prompt_variants : (Str → Contents) → Str → Result Str (Map Str)
  load_prompt_variants read config_dir =
      elim (read (codec.join_path config_dir (bytes "prompts.json"))) [
        | missing ↦ ok []
        | unreadable e ↦ err (bytes "failed to read prompt variants: " ++ e)
        | contents text ↦ elim (codec.unmarshal_variants text) [
          | err e ↦ err (bytes "failed to parse prompt variants: " ++ e)
          | ok variants ↦ ok variants
        ]
      ]

  -- `none` is nil, where the file is not there.
  pub load_tools_json : (Str → Contents) → Str → Result Str (Option ToolsJson)
  load_tools_json read path = elim (read path) [
    | missing ↦ ok none
    | unreadable e ↦ err (bytes "read tools.json: " ++ e)
    | contents text ↦ elim (codec.unmarshal_tools text) [
      | err e ↦ err (bytes "parse tools.json: " ++ e)
      | ok tj ↦ ok (some tj)
    ]
  ]

  -- The first keyword found, in the order in which the map is walked, which may be any.
  pub select_prompt : Str → Map Str → Str → Str
  select_prompt default_prompt [] message = default_prompt
  select_prompt default_prompt ((keyword, prompt) ∷ variants) message =
      let rest = select_prompt default_prompt variants message in
      if contains (codec.to_lower message) (codec.to_lower keyword) then prompt else rest
