-- ===== src/FetchTools/Web.antt =====
-- webfetch.go: the tool web_fetch.
pub mod Allowed
pub mod Examples
use docsclaw.Base.{
  ℕ, Str, bytes, ◌==◌, has_suffix, decimal, Map, lookup, Option, none, some, List, [], ◌∷◌, ◌++◌,
  Bool, true, false, not, ◌&&◌, ◌||◌, leb, eqb, if◌then◌else◌, Result, ok, err, ◌>>=◌,
}
use docsclaw.Json.{Json, as_str}
use docsclaw.Tools.{ToolResult, errorf}
use docsclaw.Peers.Card.{read_limited}

pub record WebFetchConfig : Type 0 where
  pub allowed_hosts : List Str

pub record ParsedUrl : Type 0 where
  pub scheme : Str
  pub hostname : Str

-- What a request comes to; the body is what is read before its end or the error.
pub data WebReply : Type 0 where
  not_built not_sent : Str → WebReply
  answered : (status : ℕ) → (body : Str) → (read_err : Option Str) → WebReply

-- net/url, strings.ToLower, and the client: a GET with the policy that it asks before it follows a
-- redirect to a host behind a number of requests, where an error stops it.
pub record WebClient (W : Type 0) : Type 0 where
  pub parse_url : Str → Result Str ParsedUrl
  pub to_lower : Str → Str
  pub get : Str → (Str → ℕ → Option Str) → W → WebReply × W

on_answer : WebReply → ToolResult
on_answer (not_built e) = errorf (bytes "failed to create request: " ++ e)
on_answer (not_sent e) = errorf (bytes "fetch failed: " ++ e)
on_answer (answered status body read_err) =
    let (text, failed) = read_limited 100000 body read_err in
    elim failed [
      | some e ↦ errorf (bytes "failed to read response: " ++ e)
      | none ↦
          if eqb status 200
          then record { output = text; error = false }
          else errorf (bytes "HTTP " ++ (decimal status ++ (bytes ": " ++ text)))
    ]

module _ {W : Type 0} (client : WebClient W) (config : WebFetchConfig) where
  host_in : Str → List Str → Bool
  host_in host [] = false
  host_in host (name ∷ names) =
      let rest = host_in host names in
      let allowed = client.to_lower name in
      if host == allowed || has_suffix host (bytes "." ++ allowed) then true else rest

  pub is_host_allowed : Str → Bool
  unfolding host_in
  is_host_allowed host = host_in (client.to_lower host) config.allowed_hosts

  pub is_restricted : Bool
  is_restricted = elim (config.allowed_hosts) [ [] ↦ false | _ ↦ true ]

  pub check_redirect : Str → ℕ → Option Str
  check_redirect host via =
      if is_restricted && not (is_host_allowed host)
      then some (bytes "redirect to non-allowed host: " ++ host)
      else if leb 10 via
      then some (bytes "too many redirects")
      else none

  -- the URL to fetch, or why it is not fetched
  pub admitted : Map Json → Result Str Str
  admitted args = elim (as_str (lookup (bytes "url") args)) [
    | none ↦ err (bytes "url is required")
    | some raw ↦ if raw == [] then err (bytes "url is required") else elim (client.parse_url raw) [
      | err e ↦ err (bytes "invalid URL: " ++ e)
      | ok parsed ↦
          let scheme = client.to_lower parsed.scheme in
          if not (scheme == bytes "http") && not (scheme == bytes "https")
          then err (bytes "unsupported URL scheme: " ++ parsed.scheme)
          else if is_restricted && not (is_host_allowed parsed.hostname)
          then err (bytes "Host not allowed: " ++ parsed.hostname)
          else ok raw
    ]
  ]

  pub execute : Map Json → W → ToolResult × W
  unfolding on_answer
  execute args w = elim (admitted args) [
    | err e ↦ (errorf e, w)
    | ok raw ↦ let (reply, w') = client.get raw check_redirect w in (on_answer reply, w')
  ]
