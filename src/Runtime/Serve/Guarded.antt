-- ===== src/Runtime/Serve/Guarded.antt =====
-- runtime.go: what is verified before a request reaches an endpoint.
use docsclaw.Base.{ℕ, Str, bytes, Option, none, some, [], ◌∷◌, ◌≡◌, ◌⊎◌, Result, ok}
use docsclaw.Text.{clean}
use docsclaw.Auth.Keys.{KeyError}
use docsclaw.Auth.Policy.{Config}
use docsclaw.Auth.Verify.{Claims, verify_token}
use docsclaw.Auth.Middleware.{HttpRequest, header_values, parse_bearer, authorization}
use docsclaw.Runtime.AgentConfig.{AgentConfig, InboundAuthCfg}
use docsclaw.Runtime.Toolset.{World}
use docsclaw.Tools.{Runtime}
use docsclaw.Runtime.Serve.{SessionStores, AuthWorld}

-- The policy is that of the block: its issuer, its audience, and so on.
pub record IsPolicyOf (c : InboundAuthCfg) (cfg : Config) : Type 0 where
  pub issuer : cfg.issuer ≡ c.issuer
  pub jwks_url : cfg.jwks_url ≡ c.jwks_url
  pub audience : cfg.audience ≡ c.audience
  pub scopes : cfg.required_scopes ≡ c.required_scopes
  pub callers : cfg.allowed_callers ≡ c.allowed_callers

module _ {W H S Key : Type 0} (world : World W H S) (stores : SessionStores W)
    (auth : AuthWorld Key) (go : Runtime W) where
  -- The request may go on: it asks for the card or for the health, or it has one bearer token, which
  -- was accepted under the policy of the block with these claims.
  abbrev pub IsServed :
      InboundAuthCfg → ℕ → (Str → Result KeyError Key) → HttpRequest → Option Claims → Type 0
  IsServed c now source r claims =
      ((claims ≡ none)
        × ((clean r.path ≡ bytes "/.well-known/agent-card.json")
            ⊎ (clean r.path ≡ bytes "/health")))
      ⊎ ((cfg : Config) × (who : Claims) × (value : Str) × (token : Str) × IsPolicyOf c cfg
          × (header_values authorization r.headers ≡ value ∷ [])
          × (parse_bearer value ≡ some token)
          × (verify_token auth.codec cfg now source token ≡ ok who)
          × (claims ≡ some who))
