-- ===== src/Runtime/AgentConfig.antt =====
-- internal/cmd/agentconfig.go: agent-config.yaml and its checks.
pub mod Peers
pub mod Checked
pub mod Examples
use docsclaw.Base.{
  ℕ, Str, bytes, ◌==◌, Map, any, ℤ, pos, negsuc, Option, none, some, List, [], ◌∷◌, ◌++◌, Bool,
  true, false, not, ◌&&◌, ◌||◌, leb, ltb, eqb, if◌then◌else◌, Result, ok, err, ◌>>=◌, ◌>>◌, fail_if,
}
use docsclaw.Text.{trim_space}
use docsclaw.Tools.{LoopConfig, default_loop_config}
use docsclaw.Auth.Policy.{Config}
use docsclaw.FetchTools.Exec.{ExecConfig}
use docsclaw.McpClient.{McpServerConfig}
use docsclaw.Memory.{Contents, contents, missing, unreadable}
use docsclaw.Peers.Card.{PublicKey, KeyFiles, Url, load_card_public_key}
use docsclaw.Retrieval.{RagConfig}

-- `card_key` is the parsed form of `card_public_key`, nil until it is read.
pub record A2aPeer : Type 0 where
  pub name : Str
  pub url : Str
  pub description : Str
  pub timeout_seconds : ℤ
  pub card_public_key : Str
  pub card_key : Option PublicKey

pub record InboundAuthCfg : Type 0 where
  pub enabled : Bool
  pub issuer : Str
  pub jwks_url : Str
  pub audience : Str
  pub required_scopes : List Str
  pub allowed_callers : List Str
  pub clock_skew : Str

pub record ToolsConfig : Type 0 where
  pub allowed : List Str
  pub exec : ExecConfig
  pub allowed_hosts : List Str
  pub workspace : Str
  pub mcp : List McpServerConfig

-- A negative `max_iterations` acts as 0.
pub record AgentConfig : Type 0 where
  pub tools : ToolsConfig
  pub max_iterations : ℕ
  pub rag : Option RagConfig
  pub skills_dir : Str
  pub document_services : Map Str
  pub inbound_auth : Option InboundAuthCfg
  pub a2a_peers : List A2aPeer

-- The YAML decoder, url.Parse, time.ParseDuration, path/filepath, and the files of card keys;
-- `quoted` is %q.
pub record ConfigCodec : Type 0 where
  pub unmarshal : Str → Result Str AgentConfig
  pub parse_url : Str → Result Str Url
  pub parse_duration : Str → Result Str ℕ
  pub is_abs : Str → Bool
  pub join_path : Str → Str → Str
  pub quoted : Str → Str
  pub key_files : KeyFiles

is_name_byte : ℕ → Bool
is_name_byte b = (leb 97 b && leb b 122) || (leb 48 b && leb b 57)

-- `documentServiceName`: ^[a-z0-9][a-z0-9-]*$
pub is_service_name : Str → Bool
unfolding is_name_byte
is_service_name [] = false
is_service_name (b ∷ s) = is_name_byte b && not (any (λ c. not (is_name_byte c || eqb c 45)) s)

-- The condition on a URL: IsAbs says that it has a scheme.
pub is_http_url : Url → Bool
is_http_url u =
    not (u.scheme == [])
    && (u.scheme == bytes "http" || u.scheme == bytes "https")
    && not (u.host == [])

pub is_negative : ℤ → Bool
is_negative (pos n) = false
is_negative (negsuc n) = true

pub exceeds : ℤ → ℕ → Bool
exceeds (pos n) limit = ltb limit n
exceeds (negsuc n) limit = false

pub to_loop_config : {W : Type 0} → AgentConfig → LoopConfig W
to_loop_config c =
    if ltb 0 c.max_iterations
    then record default_loop_config { max_iterations = c.max_iterations }
    else default_loop_config

-- An explicit host wins; else loopback where requests are authenticated.
pub resolve_host : Str → Bool → Str
resolve_host configured auth_enabled =
    if not (configured == [])
    then configured
    else if auth_enabled
    then bytes "127.0.0.1"
    else bytes "0.0.0.0"

abbrev pub auth_config : InboundAuthCfg → List Str → ℕ → Config
auth_config c exempt skew = record {
  issuer = c.issuer;
  jwks_url = c.jwks_url;
  audience = c.audience;
  required_scopes = c.required_scopes;
  allowed_callers = c.allowed_callers;
  clock_skew = skew;
  exempt_paths = exempt;
  min_refresh_interval = 0;
}

module _ (codec : ConfigCodec) where
  -- "document_services[%q]: " and the like
  labelled : Str → Str → Str → Str
  labelled block name problem =
      block ++ (bytes "[" ++ (codec.quoted name ++ (bytes "]: " ++ problem)))

  -- What is asked of a URL of the block.
  pub check_url : Str → Str → Str → Result Str (Unit {0})
  unfolding labelled is_http_url
  check_url block name raw_url = elim (codec.parse_url raw_url) [
    | err e ↦ err (labelled block name (bytes "invalid URL: " ++ e))
    | ok u ↦
        fail_if (not (is_http_url u))
          (labelled block name (bytes "must be an absolute http or https URL"))
  ]

  check_name : Str → Str → Result Str (Unit {0})
  unfolding labelled is_service_name
  check_name block name =
      fail_if (not (is_service_name name))
        (labelled block name (bytes "name must match ^[a-z0-9][a-z0-9-]*$"))

  -- In the order of the map, which may be any.
  pub validate_document_services : Map Str → Result Str (Unit {0})
  unfolding check_name check_url
  validate_document_services [] = ok tt
  validate_document_services ((name, raw_url) ∷ services) = do
    check_name (bytes "document_services") name
    check_url (bytes "document_services") name raw_url
    validate_document_services services

  check_peer : List Str → A2aPeer → Result Str (Unit {0})
  unfolding check_name check_url labelled is_negative exceeds
  check_peer seen peer = do
    check_name (bytes "a2a_peers") peer.name
    fail_if (any (λ n. n == peer.name) seen)
        (labelled (bytes "a2a_peers") peer.name (bytes "duplicate name"))
    check_url (bytes "a2a_peers") peer.name peer.url
    fail_if (is_negative peer.timeout_seconds)
        (labelled (bytes "a2a_peers") peer.name (bytes "timeout_seconds must not be negative"))
    fail_if (exceeds peer.timeout_seconds 3600)
        (labelled (bytes "a2a_peers") peer.name (bytes "timeout_seconds must not exceed 3600"))

  -- `seen` has the names of the peers in front.
  pub validate_from : List Str → List A2aPeer → Result Str (Unit {0})
  unfolding check_peer
  validate_from seen [] = ok tt
  validate_from seen (peer ∷ peers) = do
    check_peer seen peer
    validate_from (peer.name ∷ seen) peers

  pub validate_a2a_peers : List A2aPeer → Result Str (Unit {0})
  unfolding validate_from
  validate_a2a_peers = validate_from []

  check_skew : Str → Result Str (Unit {0})
  check_skew skew = if skew == [] then ok tt else elim (codec.parse_duration skew) [
    | ok _ ↦ ok tt
    | err e ↦ err (bytes "inbound_auth.clock_skew: " ++ e)
  ]

  -- `InboundAuthCfg.validate`, behind the test for nil
  validate_enabled : InboundAuthCfg → Result Str (Unit {0})
  unfolding check_skew
  validate_enabled c = do
    fail_if (trim_space c.issuer == [])
        (bytes "inbound_auth.issuer is required when inbound auth is enabled")
    fail_if (trim_space c.audience == [])
        (bytes "inbound_auth.audience is required when inbound auth is enabled")
    fail_if (trim_space c.jwks_url == [])
        (bytes "inbound_auth.jwks_url is required when inbound auth is enabled")
    check_skew c.clock_skew

  pub validate : Option InboundAuthCfg → Result Str (Unit {0})
  unfolding validate_enabled
  validate none = ok tt
  validate (some c) = if c.enabled then validate_enabled c else ok tt

  unfoldable pub to_inbound_auth : Option InboundAuthCfg → List Str → Result Str Config
  to_inbound_auth none exempt = err (bytes "inbound auth config is nil")
  to_inbound_auth (some c) exempt =
      if c.clock_skew == []
      then ok (auth_config c exempt 0)
      else elim (codec.parse_duration c.clock_skew) [
        | ok skew ↦ ok (auth_config c exempt skew)
        | err e ↦ err (bytes "inbound_auth.clock_skew: " ++ e)
      ]

  pub card_key_path : Str → Str → Str
  card_key_path config_dir path =
      if codec.is_abs path then path else codec.join_path config_dir path

  -- The peer with its key, where it has one.
  pub load_card_key : Str → A2aPeer → Result Str A2aPeer
  unfolding card_key_path
  load_card_key config_dir peer =
      if peer.card_public_key == []
      then ok peer
      else elim (load_card_public_key codec.key_files
          (card_key_path config_dir peer.card_public_key)) [
            | ok key ↦ ok (record peer { card_key = some key })
            | err e ↦ err (
                bytes "a2a_peers["
                ++ (codec.quoted peer.name ++ (bytes "]: card_public_key: " ++ e)))
          ]

  pub load_a2a_peer_card_keys : Str → List A2aPeer → Result Str (List A2aPeer)
  unfolding load_card_key
  load_a2a_peer_card_keys config_dir [] = ok []
  load_a2a_peer_card_keys config_dir (peer ∷ peers) = do
    first ← load_card_key config_dir peer
    rest ← load_a2a_peer_card_keys config_dir peers
    ok (first ∷ rest)

  -- The checks behind the decoder.
  checked : Str → AgentConfig → Result Str AgentConfig
  unfolding validate_document_services validate validate_a2a_peers load_a2a_peer_card_keys
  checked config_dir cfg = do
    validate_document_services cfg.document_services
    validate cfg.inbound_auth
    validate_a2a_peers cfg.a2a_peers
    peers ← load_a2a_peer_card_keys config_dir cfg.a2a_peers
    ok (record cfg { a2a_peers = peers })

  parse_config : Str → Str → Result Str AgentConfig
  unfolding checked
  parse_config config_dir text = elim (codec.unmarshal text) [
    | err e ↦ err (bytes "failed to parse agent config: " ++ e)
    | ok cfg ↦ checked config_dir cfg
  ]

  -- `none` is nil, where the file is not there.
  unfoldable pub load_agent_config : (Str → Contents) → Str → Result Str (Option AgentConfig)
  unfolding parse_config
  load_agent_config read config_dir =
      elim (read (codec.join_path config_dir (bytes "agent-config.yaml"))) [
        | missing ↦ ok none
        | unreadable e ↦ err (bytes "failed to read agent config: " ++ e)
        | contents text ↦ elim (parse_config config_dir text) [
          | err e ↦ err e
          | ok cfg ↦ ok (some cfg)
        ]
      ]
