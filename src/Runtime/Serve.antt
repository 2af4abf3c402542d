-- ===== src/Runtime/Serve.antt =====
-- internal/cmd/runtime.go: newServeHandler puts the endpoints behind the authentication.
pub mod Guarded
pub mod Examples
use docsclaw.Base.{
  ℕ, Str, bytes, ◌==◌, decimal, Map, Option, none, some, List, [], ◌∷◌, ◌++◌, Bool, true, false,
  not, if◌then◌else◌, Result, ok, err,
}
use docsclaw.Auth.Keys.{KeyError}
use docsclaw.Auth.Middleware.{HttpRequest, Handled, passed_on, middleware}
use docsclaw.Auth.Policy
use docsclaw.Auth.Policy.{Config}
use docsclaw.Auth.Verify.{Codec}
use docsclaw.Bridge.{SessionStore, AgentExecutor}
use docsclaw.Llm.{Message}
use docsclaw.OpenAiApi.{Handler}
use docsclaw.Tools.{Runtime}
use docsclaw.Runtime.AgentConfig.{AgentConfig, InboundAuthCfg, ConfigCodec, to_inbound_auth}
use docsclaw.Runtime.Build.{AgentRuntime, system_prompt}
use docsclaw.Runtime.Build.Conversation.{run}
use docsclaw.Runtime.Toolset.{World}
use docsclaw.Runtime.ConfigDir.{AgentCard}

-- What the session stores of internal/session are to this function: an open store, with its Close
-- where it has one; and the directory and the mode of the database's file.
pub record SessionStores (W : Type 0) : Type 0 where
  pub new_memory_store : ℕ → SessionStore W
  pub new_sqlite_store : Str → ℕ → W → Result Str (SessionStore W × (W → W)) × W
  pub dir : Str → Str
  pub mkdir_all : Str → W → Option Str × W
  pub chmod : Str → W → Option Str × W
  pub getenv : Str → Str

-- The middleware's packages: url.Parse, and the codec of tokens for a type of keys.
pub record AuthWorld (Key : Type 0) : Type 0 where
  pub parse_url : Str → Option Policy.Url
  pub codec : Codec Key

-- The mux is what stands behind `front`: the executor at /a2a and /, the Chat Completions endpoint
-- below /v1, the card, and /health.
pub record ServeHandler (W Key : Type 0) : Type 0 where
  pub executor : AgentExecutor W
  pub open_ai : Handler W
  pub card : AgentCard
  pub front : ℕ → (Str → Result KeyError Key) → HttpRequest → Handled
  pub close : W → W

-- Half an hour in nanoseconds.
abbrev session_ttl : ℕ
session_ttl = 1_800_000_000_000

abbrev pub exempt_paths : List Str
exempt_paths = bytes "/.well-known/agent-card.json" ∷ bytes "/health" ∷ []

session_db_of : Str → Str → Str
session_db_of configured env =
    if not (configured == []) then configured else if not (env == []) then env else bytes "memory"

-- The card declares an interface at least.
with_interface : ℕ → AgentCard → AgentCard
with_interface port card = elim (card.supported_interfaces) [
  | [] ↦ record card { supported_interfaces = (bytes "http://localhost:" ++ decimal port) ∷ [] }
  | _ ∷ _ ↦ card
]

module _ {W : Type 0} (stores : SessionStores W) where
  -- The store, and how it is closed.
  open_sessions : Str → W → Result Str (SessionStore W × (W → W)) × W
  open_sessions session_db w =
      if session_db == bytes "memory"
      then (ok (stores.new_memory_store session_ttl, λ v. v), w)
      else (let (made, w1) = stores.mkdir_all (stores.dir session_db) w in
          elim made [
            | some e ↦ (err (bytes "failed to create session db directory: " ++ e), w1)
            | none ↦
                let (opened, w2) = stores.new_sqlite_store session_db session_ttl w1 in
                elim opened [
                  | err e ↦ (err (bytes "failed to open session database: " ++ e), w2)
                  | ok store ↦
                      let (changed, w3) = stores.chmod session_db w2 in
                      elim changed [
                        | some e ↦ (err (bytes "failed to set session db permissions: " ++ e), w3)
                        | none ↦ (ok store, w3)
                      ]
                ]
          ])

  -- Sessions are kept where there is a registry.
  sessions_of : Bool → Str → W → Result Str (Option (SessionStore W) × (W → W)) × W
  unfolding open_sessions session_db_of
  sessions_of false configured w = (ok (none, λ v. v), w)
  sessions_of true configured w =
      let (opened, w') =
        open_sessions (session_db_of configured (stores.getenv (bytes "DOCSCLAW_SESSION_DB"))) w in
      (elim opened [ err e ↦ err e | ok (store, close) ↦ ok (some store, close) ], w')

-- What stands in front of the mux; `none` is a nil block, or none at all.
pub front_of :
    {Key : Type 0}
    → ConfigCodec
    → AuthWorld Key
    → Option InboundAuthCfg
    → Result Str (ℕ → (Str → Result KeyError Key) → HttpRequest → Handled)
front_of codec auth none = ok (λ now source r. passed_on r none)
front_of codec auth (some c) =
    if c.enabled
    then (elim (to_inbound_auth codec (some c) exempt_paths) [
      | err e ↦ err (bytes "inbound auth: " ++ e)
      | ok cfg ↦ elim (middleware auth.codec auth.parse_url cfg) [
        | err e ↦ err (bytes "inbound auth: " ++ e)
        | ok handler ↦ ok handler
      ]
    ])
    else ok (λ now source r. passed_on r none)

pub inbound_auth_of : Option AgentConfig → Option InboundAuthCfg
inbound_auth_of none = none
inbound_auth_of (some a) = a.inbound_auth

has_registry : {A : Type 0} → Option A → Bool
has_registry none = false
has_registry (some _) = true

module _ {W H S Key : Type 0} (world : World W H S) (stores : SessionStores W)
    (auth : AuthWorld Key) (go : Runtime W) where
  served :
      ℕ
      → AgentRuntime W S
      → Option (SessionStore W)
      → (W → W)
      → (ℕ → (Str → Result KeyError Key) → HttpRequest → Handled)
      → ServeHandler W Key
  unfolding with_interface
  served port rt sessions close front =
      let card = with_interface port rt.agent_card in
      record {
        executor = record {
          process_message = some (λ messages w. run world go rt messages none w);
          sessions = sessions;
          system_prompt = system_prompt rt;
        };
        open_ai = record {
          provider = rt.provider;
          system_prompt = system_prompt rt;
          registry = rt.registry;
          loop_config = rt.loop_config;
        };
        card = card;
        front = front;
        close = close;
      }

  -- The sessions are closed where the authentication cannot be set up.
  pub new_serve_handler : ℕ → AgentRuntime W S → W → Result Str (ServeHandler W Key) × W
  unfolding sessions_of has_registry front_of inbound_auth_of served
  new_serve_handler port rt w =
      let (opened, w') = sessions_of stores (has_registry rt.registry) rt.cfg.session_db w in
      elim opened [
        | err e ↦ (err e, w')
        | ok (sessions, close) ↦ elim (front_of world.config auth (inbound_auth_of rt.agent_cfg)) [
          | err e ↦ (err e, close w')
          | ok front ↦ (ok (served port rt sessions close front), w')
        ]
      ]
