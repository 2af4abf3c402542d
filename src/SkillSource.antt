-- ===== src/SkillSource.antt =====
-- internal/skillpuller/source/url.go: a skill from a URL.
pub mod Public
pub mod GitHub
pub mod Server
pub mod Examples
use docsclaw.Base.{
  ℕ, Str, bytes, ◌==◌, has_suffix, take, length, ◌-◌, suc, ltb, eqb, decimal, Option, none, some,
  List, [], ◌∷◌, ◌++◌, Bool, true, false, not, ◌&&◌, ◌||◌, if◌then◌else◌, Result, ok, err, ◌>>=◌,
  ◌>>◌, fail_if,
}
use docsclaw.Peers.Card.{read_limited}
use docsclaw.Peers.Denials.{contains}

-- An address as package net tells of it: its text, and whether a network of a CIDR text holds it.
pub record Address : Type 0 where
  pub text : Str
  pub is_loopback : Bool
  pub is_link_local_unicast : Bool
  pub is_link_local_multicast : Bool
  pub lies_in : Str → Bool

pub record SkillUrl : Type 0 where
  pub scheme : Str
  pub hostname : Str
  pub text : Str

pub data Fetched : Type 0 where
  not_built not_fetched : Str → Fetched
  fetched : (status : ℕ) → (body : Str) → (read_err : Option Str) → Fetched

-- Packages net, net/url, net/http and path, and strings.EqualFold; `quoted` is %q.
pub record Net (W : Type 0) : Type 0 where
  pub parse_url : Str → Result Str SkillUrl
  pub parse_ip : Str → Option Address
  pub lookup_ip : Str → W → Result Str (List Address)
  pub get : Str → W → Fetched × W
  pub quoted : Str → Str
  pub path_base : Str → Str
  pub path_dir : Str → Str
  pub path_ext : Str → Str
  pub equal_fold : Str → Str → Bool

pub record Skill : Type 0 where
  pub name : Str
  pub content : Str

abbrev pub private_networks : List Str
private_networks =
    bytes "10.0.0.0/8"
    ∷ bytes "172.16.0.0/12"
    ∷ bytes "192.168.0.0/16"
    ∷ bytes "169.254.0.0/16"
    ∷ bytes "127.0.0.0/8"
    ∷ bytes "::1/128"
    ∷ bytes "fc00::/7"
    ∷ bytes "fe80::/10"
    ∷ []

pub in_network : Address → List Str → Bool
in_network ip [] = false
in_network ip (network ∷ networks) = let rest = in_network ip networks in ip.lies_in network || rest

-- The first address that is refused gives the error; `none` is nil.
pub reject_addresses : List Address → Option Str
unfolding in_network
reject_addresses [] = none
reject_addresses (ip ∷ ips) =
    let rest = reject_addresses ips in
    if ip.is_loopback || ip.is_link_local_unicast || ip.is_link_local_multicast
    then some (bytes "address " ++ (ip.text ++ bytes " is not allowed"))
    else if in_network ip private_networks
    then some (bytes "address " ++ (ip.text ++ bytes " is in a private range"))
    else rest

-- strings.TrimSuffix
pub trim_suffix : Str → Str → Str
trim_suffix s suffix = if has_suffix s suffix then take (length s - length suffix) s else s

module _ {W : Type 0} (net : Net W) where
  pub reject_private_host : Str → W → Option Str
  unfolding reject_addresses
  reject_private_host host w = elim (net.parse_ip host) [
    | some ip ↦ reject_addresses (ip ∷ [])
    | none ↦ elim (net.lookup_ip host w) [
      | err _ ↦ some (bytes "cannot resolve host " ++ net.quoted host)
      | ok [] ↦ some (bytes "cannot resolve host " ++ net.quoted host)
      | ok (ip ∷ ips) ↦ reject_addresses (ip ∷ ips)
    ]
  ]

  pub skill_name_from_url : Str → Str
  unfolding trim_suffix
  skill_name_from_url raw =
      let p = net.path_base raw in
      let parent = net.path_base (net.path_dir raw) in
      let plain = trim_suffix p (net.path_ext p) in
      if net.equal_fold p (bytes "SKILL.md")
      then (if not (parent == [])
            && not (parent == bytes ".")
            && not (parent == bytes "/")
            && not (contains parent (bytes "."))
          then parent
          else plain)
      else plain

  -- the URL that is fetched, or why it is not
  pub admitted : Bool → Str → W → Result Str SkillUrl
  unfolding reject_private_host
  admitted allow_private ref w = elim (net.parse_url ref) [
    | err e ↦ err (bytes "invalid URL " ++ (net.quoted ref ++ (bytes ": " ++ e)))
    | ok parsed ↦
        if not (parsed.scheme == bytes "https") && not (parsed.scheme == bytes "http")
        then err (
            bytes "unsupported scheme "
            ++ (net.quoted parsed.scheme ++ bytes ": only http and https are allowed"))
        else if allow_private
        then ok parsed
        else elim (reject_private_host parsed.hostname w) [
          | some e ↦ err (bytes "blocked URL " ++ (net.quoted ref ++ (bytes ": " ++ e)))
          | none ↦ ok parsed
        ]
  ]

  -- A skill has at most 2^20 bytes; `limit` is that number.
  pub on_fetched : ℕ → Str → Fetched → Result Str Skill
  unfolding skill_name_from_url
  on_fetched limit ref (not_built e) =
      err (bytes "invalid URL " ++ (net.quoted ref ++ (bytes ": " ++ e)))
  on_fetched limit ref (not_fetched e) =
      err (bytes "fetch " ++ (net.quoted ref ++ (bytes ": " ++ e)))
  on_fetched limit ref (fetched status body read_err) =
      let (content, failed) = read_limited (suc limit) body read_err in
      if not (eqb status 200)
      then err (bytes "fetch " ++ (net.quoted ref ++ (bytes ": status " ++ decimal status)))
      else elim failed [
        | some e ↦ err (bytes "read " ++ (net.quoted ref ++ (bytes ": " ++ e)))
        | none ↦
            if ltb limit (length content)
            then err (
                bytes "skill from "
                ++ (net.quoted ref
                    ++ (bytes " exceeds size limit (" ++ (decimal limit ++ bytes " bytes)"))))
            else ok (record { name = skill_name_from_url ref; content = content })
      ]

  pub pull : ℕ → Bool → Str → W → Result Str Skill × W
  unfolding admitted on_fetched
  pull limit allow_private ref w = elim (admitted allow_private ref w) [
    | err e ↦ (err e, w)
    | ok parsed ↦ let (reply, w') = net.get parsed.text w in (on_fetched limit ref reply, w')
  ]
