-- ===== src/SkillSource/Public.antt =====
-- url.go, Pull: a skill comes from a host without private addresses, and is small.
use docsclaw.Base.{
  ℕ, suc, ◌≤◌, Str, bytes, Option-cases, none, some, List, List-cases, [], ◌∷◌, false, ◌≡◌, ◌⊎◌,
  refl, sym, ap, subst, ◌∙◌, arith, inl, inr, Result-cases, ok, All, length, ltb,
}
use docsclaw.Peers.Card.{read_limited}
use docsclaw.SkillSource.{
  Address, SkillUrl, Net, Skill, Fetched, not_built, not_fetched, fetched, private_networks,
  in_network, reject_addresses, reject_private_host, admitted, on_fetched, pull,
}

-- The address is neither local nor in one of the private networks of RFC 1918, RFC 4193 and those
-- that are for a link or the host itself. The unspecified addresses, 0.0.0.0 and ::, are not among
-- these.
pub record IsNotPrivate (ip : Address) : Type 0 where
  pub loopback : ip.is_loopback ≡ false
  pub unicast : ip.is_link_local_unicast ≡ false
  pub multicast : ip.is_link_local_multicast ≡ false
  pub class_a : ip.lies_in (bytes "10.0.0.0/8") ≡ false
  pub class_b : ip.lies_in (bytes "172.16.0.0/12") ≡ false
  pub class_c : ip.lies_in (bytes "192.168.0.0/16") ≡ false
  pub link_local : ip.lies_in (bytes "169.254.0.0/16") ≡ false
  pub this_host : ip.lies_in (bytes "127.0.0.0/8") ≡ false
  pub this_host6 : ip.lies_in (bytes "::1/128") ≡ false
  pub unique_local6 : ip.lies_in (bytes "fc00::/7") ≡ false
  pub link_local6 : ip.lies_in (bytes "fe80::/10") ≡ false

reject_addresses_sound : (ips : List Address) → reject_addresses ips ≡ none → All IsNotPrivate ips
unfolding reject_addresses in_network
reject_addresses_sound [] h = tt
reject_addresses_sound (ip ∷ ips) h =
    let outside : in_network ip private_networks ≡ false = ground (arith, h) in
    (
      record {
        loopback = ground (arith, h);
        unicast = ground (arith, h);
        multicast = ground (arith, h);
        class_a = ground (arith, outside);
        class_b = ground (arith, outside);
        class_c = ground (arith, outside);
        link_local = ground (arith, outside);
        this_host = ground (arith, outside);
        this_host6 = ground (arith, outside);
        unique_local6 = ground (arith, outside);
        link_local6 = ground (arith, outside);
      },
      reject_addresses_sound ips (ground (arith, h, outside)),
    )

module _ {W : Type 0} (net : Net W) where
  -- The addresses that the host was resolved to.
  abbrev pub IsResolved : Str → W → List Address → Type 0
  IsResolved host w ips =
      ((ip : Address) × (net.parse_ip host ≡ some ip) × (ips ≡ ip ∷ []))
      ⊎ ((net.parse_ip host ≡ none) × (net.lookup_ip host w ≡ ok ips))

  reject_private_host_sound :
      (host : Str) (w : W)
      → reject_private_host net host w ≡ none
      → (ips : List Address) × IsResolved host w ips × All IsNotPrivate ips
  unfolding reject_private_host
  reject_private_host_sound host w h = elim (Option-cases (net.parse_ip host)) [
    | inr (ip, e) ↦
        (ip ∷ [], inl (ip, e, refl), reject_addresses_sound (ip ∷ []) (ground (arith, h, e)))
    | inl e ↦ elim (Result-cases (net.lookup_ip host w)) [
      | inl (x, f) ↦ absurd (ground (arith, h, e, f))
      | inr (ips, f) ↦ elim (List-cases ips) [
        | inl g ↦ absurd (ground (arith, h, e, f, g))
        | inr (ip, rest, g) ↦ (
          ips,
          inr (e, f),
          subst (All IsNotPrivate) (sym g)
              (reject_addresses_sound (ip ∷ rest) (ground (arith, h, e, f, g))),
        )
      ]
    ]
  ]

  admitted_sound :
      (ref : Str) (w : W) (parsed : SkillUrl)
      → admitted net false ref w ≡ ok parsed
      → (net.parse_url ref ≡ ok parsed) × (reject_private_host net parsed.hostname w ≡ none)
  unfolding admitted
  admitted_sound ref w parsed h = elim (Result-cases (net.parse_url ref)) [
    | inl (x, e) ↦ absurd (ground (arith, h, e))
    | inr (found, e) ↦ elim (Option-cases (reject_private_host net found.hostname w)) [
      | inr (x, f) ↦ absurd (ground (arith, h, e, f))
      | inl f ↦
          let same : found ≡ parsed = ground (arith, h, e, f) in
          (e ∙ ap ok same, subst (λ u. reject_private_host net u.hostname w ≡ none) same f)
    ]
  ]

  on_fetched-bounded :
      (limit : ℕ) (ref : Str) (reply : Fetched) (skill : Skill)
      → on_fetched net limit ref reply ≡ ok skill
      → length skill.content ≤ limit
  unfolding on_fetched
  on_fetched-bounded limit ref (not_built e) skill h = absurd (cc h)
  on_fetched-bounded limit ref (not_fetched e) skill h = absurd (cc h)
  on_fetched-bounded limit ref (fetched status body read_err) skill h =
      elim (Option-cases (read_limited (suc limit) body read_err).1) [
        | inr (x, e) ↦ absurd (ground (arith, h, e))
        | inl e ↦
            let content = (read_limited (suc limit) body read_err).0 in
            let small : ltb limit (length content) ≡ false = ground (arith, h, e) in
            let same : content ≡ skill.content = ground (arith, h, e, small) in
            subst (λ c. length c ≤ limit) same (ground (arith, small))
      ]

  -- Where private hosts are not allowed: a skill that is pulled is named by a URL whose host, as it
  -- was resolved before the fetch, has only addresses that are neither loopback nor link-local nor in
  -- one of the eight networks of `IsNotPrivate`, and its content is within the limit.
  pub pull-IsNotPrivate :
      (limit : ℕ) (ref : Str) (w : W) (skill : Skill)
      → (pull net limit false ref w).0 ≡ ok skill
      → (parsed : SkillUrl) × (ips : List Address) × (net.parse_url ref ≡ ok parsed)
        × IsResolved parsed.hostname w ips
        × All IsNotPrivate ips
        × (length skill.content ≤ limit)
  unfolding pull
  pull-IsNotPrivate limit ref w skill h = elim (Result-cases (admitted net false ref w)) [
    | inl (x, e) ↦ absurd (ground (arith, h, e))
    | inr (parsed, e) ↦
        let (f, g) = admitted_sound ref w parsed e in
        let (ips, resolved, public) = reject_private_host_sound parsed.hostname w g in
        (
          parsed,
          ips,
          f,
          resolved,
          public,
          on_fetched-bounded limit ref (net.get parsed.text w).0 skill (ground (arith, h, e)),
        )
  ]
