-- ===== src/FetchTools/Web/Examples.antt =====
-- A fetch that follows a redirect below an allowed host, and the theorem on it.
use docsclaw.Base.{
  Str, bytes, Map, Option, Option-cases, none, some, List, [], ◌∷◌, ◌++◌, ◌≡◌, inl, inr, refl, ok,
  All,
}
use docsclaw.Json.{Json, str}
use docsclaw.FetchTools.Web.{WebFetchConfig, WebClient, WebReply, not_sent, answered, execute}
use docsclaw.FetchTools.Web.Allowed.{IsAllowed, IsFollowing, execute-IsAllowed}

abbrev config : WebFetchConfig
config = record { allowed_hosts = bytes "example.com" ∷ [] }

-- The world is the hosts that were asked. Each host redirects to docs.example.com.
abbrev redirected : Option Str → List Str → WebReply × List Str
redirected (some e) w = (not_sent e, w ++ bytes "example.com" ∷ [])
redirected none w =
    (answered 200 (bytes "text") none, w ++ bytes "example.com" ∷ bytes "docs.example.com" ∷ [])

abbrev client : WebClient (List Str)
client = record {
  parse_url = λ _. ok (record { scheme = bytes "https"; hostname = bytes "example.com" });
  to_lower = λ s. s;
  get = λ raw policy w. redirected (policy (bytes "docs.example.com") 1) w;
}

following : IsFollowing client config (λ w. w)
following raw policy w = elim (Option-cases (policy (bytes "docs.example.com") 1)) [
  | inl e ↦ (
    bytes "example.com" ∷ bytes "docs.example.com" ∷ [],
    rw e refl,
    (
      inl (record { scheme = bytes "https"; hostname = bytes "example.com" }, refl, refl),
      (inr (1, e), tt),
    ),
  )
  | inr (x, e) ↦ (
    bytes "example.com" ∷ [],
    rw e refl,
    (inl (record { scheme = bytes "https"; hostname = bytes "example.com" }, refl, refl), tt),
  )
]

abbrev args : Map Json
args = (bytes "url", str (bytes "https://example.com/")) ∷ []

execute-IsAllowed_example :
    (asked : List Str) × ((execute client config args []).1 ≡ [] ++ asked)
    × All (IsAllowed client config) asked
execute-IsAllowed_example =
    execute-IsAllowed client config (λ w. w) args [] following (λ e. absurd (cc e))
