-- ===== src/Runtime/AgentConfig/Checked.antt =====
-- agentconfig.go: what a configuration that is loaded has been checked for.
use docsclaw.Base.{
  ℕ, Str, bytes, ◌==◌, eq_iff, Map, map, Option, none, some, List, [], ◌∷◌, true, false, ◌≡◌, ◌≢◌,
  ◌⊎◌, refl, sym, subst, arith, inl, inr, Bool-cases, Result-cases, ok, >>=-eq-ok, >>-eq-ok,
  fail_if-eq-ok, All, IsDistinct, fail_if,
}
use docsclaw.Text.{trim_space}
use docsclaw.Auth.Policy.{Config}
use docsclaw.Memory.{Contents, contents, missing, unreadable}
use docsclaw.Runtime.AgentConfig.{
  A2aPeer, AgentConfig, InboundAuthCfg, ConfigCodec, is_service_name, load_a2a_peer_card_keys,
  validate_document_services, validate_a2a_peers, validate, to_inbound_auth, load_agent_config,
  check_url, check_name, validate_from, validate_enabled, check_skew, auth_config, checked,
  parse_config,
}
use docsclaw.Runtime.AgentConfig.Peers.{
  IsHttpUrl, IsCheckedPeer, HasCardKey, check_url_sound, validate_from_sound, load_keys_sound,
}

Contents-cases :
    (c : Contents)
    → ((text : Str) × (c ≡ contents text)) ⊎ ((c ≡ missing) ⊎ ((e : Str) × (c ≡ unreadable e)))
Contents-cases (contents text) = inl (text, refl)
Contents-cases missing = inr (inl refl)
Contents-cases (unreadable e) = inr (inr (e, refl))

present : (s : Str) → (s == []) ≡ false → s ≢ []
present s h e = absurd (ground (arith, h, (eq_iff s []).1 e))

module _ (codec : ConfigCodec) where
  services_sound :
      (services : Map Str)
      → validate_document_services codec services ≡ ok tt
      → All (λ (s : Str × Str). (is_service_name s.0 ≡ true) × IsHttpUrl codec s.1) services
  unfolding validate_document_services check_name
  services_sound [] h = tt
  services_sound ((name, raw_url) ∷ services) h =
      let block = bytes "document_services" in
      let (named, h1) = >>-eq-ok (check_name codec block name) _ h in
      let (url, h2) = >>-eq-ok (check_url codec block name raw_url) _ h1 in
      (
        (ground (arith, named), check_url_sound codec block name raw_url url),
        services_sound services h2,
      )

  -- An enabled block names who signs, where the keys are, and for whom, and can be turned into the
  -- configuration of the middleware.
  abbrev pub IsCompleteAuth : Option InboundAuthCfg → Type 0
  IsCompleteAuth none = Unit
  IsCompleteAuth (some c) =
      c.enabled ≡ true
      → (trim_space c.issuer ≢ [])
        × (trim_space c.audience ≢ [])
        × (trim_space c.jwks_url ≢ [])
        × ((exempt : List Str) → (cfg : Config) × (to_inbound_auth codec (some c) exempt ≡ ok cfg))

  convertible :
      (c : InboundAuthCfg)
      → check_skew codec c.clock_skew ≡ ok tt
      → (exempt : List Str) → (cfg : Config) × (to_inbound_auth codec (some c) exempt ≡ ok cfg)
  unfolding check_skew to_inbound_auth
  convertible c h exempt = elim (Bool-cases (c.clock_skew == [])) [
    | inl e ↦ (auth_config c exempt 0, ground (arith, e))
    | inr e ↦ elim (Result-cases (codec.parse_duration c.clock_skew)) [
      | inl (x, f) ↦ absurd (ground (arith, h, e, f))
      | inr (skew, f) ↦ (auth_config c exempt skew, ground (arith, e, f))
    ]
  ]

  -- What a configuration of the middleware is made of.
  pub to_inbound_auth-eq-ok :
      (c : InboundAuthCfg) (exempt : List Str) (cfg : Config)
      → to_inbound_auth codec (some c) exempt ≡ ok cfg
      → (skew : ℕ) × (auth_config c exempt skew ≡ cfg)
  unfolding to_inbound_auth
  to_inbound_auth-eq-ok c exempt cfg h = elim (Bool-cases (c.clock_skew == [])) [
    | inl e ↦ (0, ground (arith, h, e))
    | inr e ↦ elim (Result-cases (codec.parse_duration c.clock_skew)) [
      | inl (x, f) ↦ absurd (ground (arith, h, e, f))
      | inr (skew, f) ↦ (skew, ground (arith, h, e, f))
    ]
  ]

  auth_sound : (auth : Option InboundAuthCfg) → validate codec auth ≡ ok tt → IsCompleteAuth auth
  unfolding validate validate_enabled
  auth_sound none h = tt
  auth_sound (some c) h = λ enabled.
      let all : validate_enabled codec c ≡ ok tt = ground (arith, h, enabled) in
      let (issuer, h1) =
        >>-eq-ok
          (fail_if (trim_space c.issuer == [])
            (bytes "inbound_auth.issuer is required when inbound auth is enabled"))
          _ all in
      let (audience, h2) =
        >>-eq-ok
          (fail_if (trim_space c.audience == [])
            (bytes "inbound_auth.audience is required when inbound auth is enabled"))
          _ h1 in
      let (jwks, skew) =
        >>-eq-ok
          (fail_if (trim_space c.jwks_url == [])
            (bytes "inbound_auth.jwks_url is required when inbound auth is enabled"))
          (check_skew codec c.clock_skew) h2 in
      (
        present _ (fail_if-eq-ok _ _ issuer),
        present _ (fail_if-eq-ok _ _ audience),
        present _ (fail_if-eq-ok _ _ jwks),
        convertible c skew,
      )

  -- What the checks behind the decoder promise.
  record IsChecked (config_dir : Str) (cfg : AgentConfig) : Type 0 where
    peers : All (IsCheckedPeer codec) cfg.a2a_peers
    keys : All (HasCardKey codec config_dir) cfg.a2a_peers
    distinct : IsDistinct (map (λ (p : A2aPeer). p.name) cfg.a2a_peers)
    services :
        All
          (λ (s : Str × Str). (is_service_name s.0 ≡ true) × IsHttpUrl codec s.1)
          cfg.document_services
    auth : IsCompleteAuth cfg.inbound_auth

  checked_sound :
      (config_dir : Str) (raw cfg : AgentConfig)
      → checked codec config_dir raw ≡ ok cfg
      → IsChecked config_dir cfg
  unfolding checked validate_a2a_peers
  checked_sound config_dir raw cfg h =
      let (services, h1) = >>-eq-ok (validate_document_services codec raw.document_services) _ h in
      let (auth, h2) = >>-eq-ok (validate codec raw.inbound_auth) _ h1 in
      let (peers, h3) = >>-eq-ok (validate_from codec [] raw.a2a_peers) _ h2 in
      let (found, keys, h4) =
        >>=-eq-ok (load_a2a_peer_card_keys codec config_dir raw.a2a_peers) _ h3 in
      let (good, _, distinct) = validate_from_sound codec [] raw.a2a_peers peers in
      let (a, b, c) = load_keys_sound codec config_dir raw.a2a_peers found keys good in
      let same : record raw { a2a_peers = found } ≡ cfg = cc h4 in
      subst (IsChecked config_dir) same (record {
        peers = a;
        keys = b;
        distinct = subst IsDistinct (sym c) distinct;
        services = services_sound raw.document_services services;
        auth = auth_sound raw.inbound_auth auth;
      })

  -- A configuration that is loaded: every peer has a proper name and URL, a timeout of at most an
  -- hour, and its card key if one is configured; no two peers share a name; every document service
  -- has a proper name and URL; and inbound authentication, if enabled, is complete.
  pub load_agent_config-IsChecked :
      (read : Str → Contents) (config_dir : Str) (cfg : AgentConfig)
      → load_agent_config codec read config_dir ≡ ok (some cfg)
      → All (IsCheckedPeer codec) cfg.a2a_peers
        × All (HasCardKey codec config_dir) cfg.a2a_peers
        × IsDistinct (map (λ (p : A2aPeer). p.name) cfg.a2a_peers)
        × All
            (λ (s : Str × Str). (is_service_name s.0 ≡ true) × IsHttpUrl codec s.1)
            cfg.document_services
        × IsCompleteAuth cfg.inbound_auth
  unfolding load_agent_config parse_config
  load_agent_config-IsChecked read config_dir cfg h =
      let path = codec.join_path config_dir (bytes "agent-config.yaml") in
      elim (Contents-cases (read path)) [
        | inr e ↦ absurd (ground (arith, h, e))
        | inl (text, e) ↦ elim (Result-cases (codec.unmarshal text)) [
          | inl (x, f) ↦ absurd (ground (arith, h, e, f))
          | inr (raw, f) ↦
              let k = checked_sound config_dir raw cfg (ground (arith, h, e, f)) in
              (k.peers, k.keys, k.distinct, k.services, k.auth)
        ]
      ]
