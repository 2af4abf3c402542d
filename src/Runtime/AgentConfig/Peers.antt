-- ===== src/Runtime/AgentConfig/Peers.antt =====
-- agentconfig.go: the peers of a configuration that is loaded.
use docsclaw.Base.{
  ℕ, ◌≤◌, Str, bytes, ◌==◌, eq_iff, any, map, ℤ, pos, negsuc, some, List, [], ◌∷◌, true, false, ◌≡◌,
  ◌≢◌, refl, sym, ap₂, subst, arith, inl, inr, Bool-cases, Result-cases, ok, >>=-eq-ok, >>-eq-ok,
  fail_if-eq-ok, All, All-weaken, IsDistinct, fail_if,
}
use docsclaw.Peers.Card.{PublicKey, Url, load_card_public_key}
use docsclaw.Runtime.AgentConfig.{
  A2aPeer, ConfigCodec, is_service_name, is_http_url, is_negative, exceeds, card_key_path,
  load_card_key, load_a2a_peer_card_keys, check_url, check_name, labelled, check_peer,
  validate_from, checked,
}

in_range :
    (t : ℤ) → is_negative t ≡ false → exceeds t 3600 ≡ false → (n : ℕ) × (t ≡ pos n) × (n ≤ 3600)
unfolding is_negative exceeds
in_range (pos n) h k = (n, refl, ground arith)
in_range (negsuc n) h k = absurd (cc)

apart :
    (name : Str) (seen : List Str) (peers : List A2aPeer)
    → All (λ (p : A2aPeer). any (λ n. n == p.name) (name ∷ seen) ≡ false) peers
    → All (λ y. y ≢ name) (map (λ (p : A2aPeer). p.name) peers)
apart name seen [] h = tt
apart name seen (p ∷ peers) (first, rest) = (
  λ e. absurd (ground (arith, first, (eq_iff name p.name).1 (sym e))),
  apart name seen peers rest,
)

module _ (codec : ConfigCodec) where
  -- An absolute http or https URL.
  abbrev pub IsHttpUrl : Str → Type 0
  IsHttpUrl raw_url = (u : Url) × (codec.parse_url raw_url ≡ ok u) × (is_http_url u ≡ true)

  -- What holds of a peer before its key is read.
  pub record IsCheckedPeer (peer : A2aPeer) : Type 0 where
    pub name : is_service_name peer.name ≡ true
    pub url : IsHttpUrl peer.url
    pub timeout : (t : ℕ) × (peer.timeout_seconds ≡ pos t) × (t ≤ 3600)

  -- Where a key is configured, the peer has it.
  abbrev pub HasCardKey : Str → A2aPeer → Type 0
  HasCardKey config_dir peer =
      peer.card_public_key ≢ []
      → (key : PublicKey) × (load_card_public_key codec.key_files
            (card_key_path codec config_dir peer.card_public_key)
          ≡ ok key)
        × (peer.card_key ≡ some key)

  pub check_url_sound :
      (block name raw_url : Str) → check_url codec block name raw_url ≡ ok tt → IsHttpUrl raw_url
  unfolding check_url
  check_url_sound block name raw_url h = elim (Result-cases (codec.parse_url raw_url)) [
    | inl (e, f) ↦ absurd (ground (arith, h, f))
    | inr (u, f) ↦ (u, f, ground (arith, h, f))
  ]

  check_peer_sound :
      (seen : List Str) (peer : A2aPeer)
      → check_peer codec seen peer ≡ ok tt
      → IsCheckedPeer peer × (any (λ n. n == peer.name) seen ≡ false)
  unfolding check_peer check_name
  check_peer_sound seen peer h =
      let block = bytes "a2a_peers" in
      let (named, h1) = >>-eq-ok (check_name codec block peer.name) _ h in
      let (fresh, h2) =
        >>-eq-ok
          (fail_if (any (λ n. n == peer.name) seen)
            (labelled codec block peer.name (bytes "duplicate name")))
          _ h1 in
      let (url, h3) = >>-eq-ok (check_url codec block peer.name peer.url) _ h2 in
      let (nonneg, small) =
        >>-eq-ok
          (fail_if (is_negative peer.timeout_seconds)
            (labelled codec block peer.name (bytes "timeout_seconds must not be negative")))
          (fail_if (exceeds peer.timeout_seconds 3600)
            (labelled codec block peer.name (bytes "timeout_seconds must not exceed 3600")))
          h3 in
      (
        record {
          name = ground (arith, named);
          url = check_url_sound block peer.name peer.url url;
          timeout =
              in_range peer.timeout_seconds (fail_if-eq-ok _ _ nonneg) (fail_if-eq-ok _ _ small);
        },
        fail_if-eq-ok _ _ fresh,
      )

  pub validate_from_sound :
      (seen : List Str) (peers : List A2aPeer)
      → validate_from codec seen peers ≡ ok tt
      → All IsCheckedPeer peers
        × All (λ (p : A2aPeer). any (λ n. n == p.name) seen ≡ false) peers
        × IsDistinct (map (λ (p : A2aPeer). p.name) peers)
  unfolding validate_from
  validate_from_sound seen [] h = (tt, tt, tt)
  validate_from_sound seen (peer ∷ peers) h =
      let (first, later) = >>-eq-ok (check_peer codec seen peer) _ h in
      let (checked, fresh) = check_peer_sound seen peer first in
      let (rest, unseen, distinct) = validate_from_sound (peer.name ∷ seen) peers later in
      (
        (checked, rest),
        (fresh, All-weaken (λ p f. ground (arith, f)) peers unseen),
        (apart peer.name seen peers unseen, distinct),
      )

  load_key_sound :
      (config_dir : Str) (peer found : A2aPeer)
      → load_card_key codec config_dir peer ≡ ok found
      → IsCheckedPeer peer
      → IsCheckedPeer found × HasCardKey config_dir found × (found.name ≡ peer.name)
  unfolding load_card_key
  load_key_sound config_dir peer found h good = elim (Bool-cases (peer.card_public_key == [])) [
    | inl e ↦
        subst (λ p. IsCheckedPeer p × HasCardKey config_dir p × (p.name ≡ peer.name))
          (let same : peer ≡ found = ground (arith, h, e) in same)
          (good, λ ne. absurd (ne ((eq_iff peer.card_public_key []).0 e)), refl)
    | inr e ↦
        elim (Result-cases (
          load_card_public_key codec.key_files
            (card_key_path codec config_dir peer.card_public_key))) [
              | inl (x, f) ↦ absurd (ground (arith, h, e, f))
              | inr (key, f) ↦
                  subst (λ p. IsCheckedPeer p × HasCardKey config_dir p × (p.name ≡ peer.name))
                    (let same : record peer { card_key = some key } ≡ found =
                        ground (arith, h, e, f) in
                      same)
                    (
                      record { name = good.name; url = good.url; timeout = good.timeout },
                      λ _. (key, f, refl),
                      refl,
                    )
            ]
  ]

  pub load_keys_sound :
      (config_dir : Str) (peers found : List A2aPeer)
      → load_a2a_peer_card_keys codec config_dir peers ≡ ok found
      → All IsCheckedPeer peers
      → All IsCheckedPeer found
        × All (HasCardKey config_dir) found
        × (map (λ (p : A2aPeer). p.name) found ≡ map (λ (p : A2aPeer). p.name) peers)
  unfolding load_a2a_peer_card_keys
  load_keys_sound config_dir [] found h checked =
      let e : [] ≡ found = cc h in
      subst
        (λ l.
          All IsCheckedPeer l
          × All (HasCardKey config_dir) l
          × (map (λ (p : A2aPeer). p.name) l ≡ []))
        e (tt, tt, refl)
  load_keys_sound config_dir (peer ∷ peers) found h (good, checked) =
      let (first, e, h1) = >>=-eq-ok (load_card_key codec config_dir peer) _ h in
      let (rest, f, h2) = >>=-eq-ok (load_a2a_peer_card_keys codec config_dir peers) _ h1 in
      let (a, b, c) = load_keys_sound config_dir peers rest f checked in
      let (x, y, z) = load_key_sound config_dir peer first e good in
      let same : first ∷ rest ≡ found = cc h2 in
      subst
        (λ l.
          All IsCheckedPeer l
          × All (HasCardKey config_dir) l
          × (map (λ (p : A2aPeer). p.name) l ≡ map (λ (p : A2aPeer). p.name) (peer ∷ peers)))
        same ((x, a), (y, b), ap₂ (λ n l. n ∷ l) z c)
