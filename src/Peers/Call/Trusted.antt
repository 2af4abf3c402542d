-- ===== src/Peers/Call/Trusted.antt =====
-- a2acall.go: a peer with a key is called only behind a card that was verified.
use mathlib.Core.Option.{some-injective}
use mathlib.Core.List.{Memᴰ}
use docsclaw.Base.{
  Str, bytes, ◌==◌, eq_iff, Map, lookup, insert, lookup-insert, Option, Option-cases, none, some,
  is_some, List, [], ◌∷◌, Bool, true, false, not, ◌||◌, ◌≡◌, ◌⊎◌, refl, sym, ap, subst, ◌∙◌, arith,
  Result-cases, ok, >>=-eq-ok, or_fail, or_fail-eq-ok, Bool-cases, inl, inr,
}
use docsclaw.Json.{Json, as_str}
use docsclaw.Tools.{ToolResult}
use docsclaw.Peers.Card.{verify_card}
use docsclaw.Peers.Card.Payloads.{CardError}
use docsclaw.Peers.Call.{
  Peer, A2aCallTool, named, new, card_ok, required, Calls, peer_error, call_peer, recorded,
  check_peer, requested, on_checked, execute,
}

-- Each entry stands under the name of its peer.
abbrev IsNamed : Map Peer → Type 0
IsNamed by_name = (name : Str) (p : Peer) → lookup name by_name ≡ some p → p.name ≡ name

insert-IsNamed :
    (p : Peer) (by_name : Map Peer) → IsNamed by_name → IsNamed (insert p.name p by_name)
insert-IsNamed p by_name h name q e =
    let step = lookup-insert p.name name p by_name in
    elim (Bool-cases (p.name == name)) [
      | inl same ↦
          let asked : lookup name (insert p.name p by_name) ≡ some p = ground (arith, step, same) in
          sym (ap (λ x. x.name) (some-injective _ _ (sym asked ∙ e))) ∙ (eq_iff p.name name).0 same
      | inr other ↦ h name q (ground (arith, e, step, other))
    ]

named-IsNamed :
    (peers : List Peer) (by_name : Map Peer) → IsNamed by_name → IsNamed (named peers by_name)
unfolding named
named-IsNamed [] by_name h = h
named-IsNamed (p ∷ peers) by_name h =
    named-IsNamed peers (insert p.name p by_name) (insert-IsNamed p by_name h)

new-IsNamed : (peers : List Peer) → IsNamed (new peers).by_name
unfolding new lookup
new-IsNamed peers = named-IsNamed peers [] (λ name p e. absurd (cc e))

required_sound : (o : Option Str) (e : Str) {s : Str} → required o e ≡ ok s → o ≡ some s
unfolding required
required_sound none e h = absurd (cc h)
required_sound (some s) e h = ground (arith, h)

module _ {W : Type 0} (calls : Calls W) where
  abbrev checked : Peer → W → Option CardError × W
  checked peer = verify_card calls.web calls.jws calls.json calls.max_card peer.url peer.card_key

  -- One call of the tool: its arguments, what the tool held, and the world outside as it was.
  pub record Visit : Type 0 where
    pub args : Map Json
    pub held : Map Bool
    pub world : W

  module _ (t : A2aCallTool) where
    -- The peer has no key; or there was a call that asked for it, when it was not known to be verified,
    -- and that verified its card with the key.
    abbrev pub IsTrusted : List Visit → Peer → Type 0
    IsTrusted visits peer =
        (peer.card_key ≡ none)
        ⊎ ((v : Visit) × (message : Str) × Memᴰ v visits
            × (requested calls t v.args ≡ ok (peer, message))
            × (card_ok peer.name v.held ≡ false)
            × ((checked peer v.world).0 ≡ none))

    IsTrusted-later :
        (v : Visit) (visits : List Visit) (peer : Peer)
        → IsTrusted visits peer
        → IsTrusted (v ∷ visits) peer
    IsTrusted-later v visits peer (inl no_key) = inl no_key
    IsTrusted-later v visits peer (inr (u, message, m, a, b, c)) =
        inr (u, message, Memᴰ.tail m, a, b, c)

    -- The calls of the tool, the last one first, and what it holds behind them, whatever happens
    -- outside in between.
    pub data Ran : List Visit → Map Bool → Type 0 where
      fresh : Ran [] []
      called :
          {visits : List Visit} {verified : Map Bool} (args : Map Json) (w : W)
          → Ran visits verified
          → Ran
              (record { args = args; held = verified; world = w } ∷ visits)
              (execute calls t args verified w).0.1

    abbrev IsSafe : List Visit → Map Bool → Type 0
    IsSafe visits verified =
        (peer : Peer)
        → lookup peer.name t.by_name ≡ some peer
        → card_ok peer.name verified ≡ true
        → IsTrusted visits peer

    IsSafe-later :
        (v : Visit) (visits : List Visit) (verified : Map Bool)
        → IsSafe visits verified
        → IsSafe (v ∷ visits) verified
    IsSafe-later v visits verified safe peer e h = IsTrusted-later v visits peer (safe peer e h)

    abbrev IsChecked : List Visit → Peer → (Option CardError × Map Bool) × W → Type 0
    IsChecked visits peer out = IsSafe visits out.0.1 × (out.0.0 ≡ none → IsTrusted visits peer)

    insert-IsSafe :
        (visits : List Visit) (peer : Peer) (verified : Map Bool)
        → lookup peer.name t.by_name ≡ some peer
        → IsTrusted visits peer
        → IsSafe visits verified
        → IsSafe visits (insert peer.name true verified)
    unfolding card_ok
    insert-IsSafe visits peer verified e trusted safe q f h =
        let step = lookup-insert peer.name q.name true verified in
        elim (Bool-cases (peer.name == q.name)) [
          | inl same ↦
              let asked : lookup q.name t.by_name ≡ some peer =
                subst (λ n. lookup n t.by_name ≡ some peer) ((eq_iff peer.name q.name).0 same) e in
              subst (IsTrusted visits) (some-injective _ _ (sym asked ∙ f)) trusted
          | inr other ↦ safe q f (ground (arith, h, step, other))
        ]

    recorded-IsChecked :
        (visits : List Visit) (peer : Peer) (verified : Map Bool) (out : Option CardError × W)
        → lookup peer.name t.by_name ≡ some peer
        → IsSafe visits verified
        → (out.0 ≡ none → IsTrusted visits peer)
        → IsChecked visits peer (recorded calls peer verified out)
    unfolding recorded
    recorded-IsChecked visits peer verified (some x, w) e safe trusted = (safe, λ h. absurd (cc h))
    recorded-IsChecked visits peer verified (none, w) e safe trusted =
        (insert-IsSafe visits peer verified e (trusted refl) safe, λ _. trusted refl)

    known_peer :
        (visits : List Visit) (peer : Peer) (verified : Map Bool)
        → lookup peer.name t.by_name ≡ some peer
        → IsSafe visits verified
        → (not (is_some peer.card_key) || card_ok peer.name verified) ≡ true
        → IsTrusted visits peer
    known_peer visits peer verified e safe h = elim (Option-cases peer.card_key) [
      | inl no_key ↦ inl no_key
      | inr (key, has_key) ↦ safe peer e (ground (arith, h, has_key))
    ]

    check_peer-IsChecked :
        (visits : List Visit) (peer : Peer) (verified : Map Bool) (w : W) (args : Map Json)
        (message : Str)
        → lookup peer.name t.by_name ≡ some peer
        → requested calls t args ≡ ok (peer, message)
        → IsSafe visits verified
        → IsChecked
            (record { args = args; held = verified; world = w } ∷ visits)
            peer
            (check_peer calls peer verified w)
    unfolding check_peer
    check_peer-IsChecked visits peer verified w args message e asked safe =
        let now : Visit = record { args = args; held = verified; world = w } in
        let safe' = IsSafe-later now visits verified safe in
        elim (Bool-cases (not (is_some peer.card_key) || card_ok peer.name verified)) [
          | inl known ↦
              rw (known, check_peer)
                (safe', λ _. known_peer (now ∷ visits) peer verified e safe' known)
          | inr unknown ↦
              rw (unknown, check_peer)
                (recorded-IsChecked (now ∷ visits) peer verified (checked peer w) e safe' (λ passed.
                  inr (now, message, Memᴰ.head refl, asked, ground (arith, unknown), passed)))
        ]

    -- What one Execute does: it returns an error, and at most a card was fetched; or it calls a trusted
    -- peer that is configured under the name that was asked for.
    pub data IsGuarded (visits : List Visit) (args : Map Json) (w : W)
        (out : (ToolResult × Map Bool) × W) : Type 0 where
      refused :
          out.0.0.error ≡ true
          → (out.1 ≡ w)
            ⊎ ((peer : Peer) × (out.1
                  ≡ (verify_card calls.web calls.jws calls.json calls.max_card peer.url
                      peer.card_key w).1))
          → IsGuarded visits args w out
      sent :
          (peer : Peer) (message : Str) (before : W)
          → as_str (lookup (bytes "peer") args) ≡ some peer.name
          → as_str (lookup (bytes "message") args) ≡ some message
          → lookup peer.name t.by_name ≡ some peer
          → IsTrusted visits peer
          → (out.0.0, out.1) ≡ call_peer calls peer message before
          → IsGuarded visits args w out

    check_peer-world :
        (peer : Peer) (verified : Map Bool) (w : W) (e : CardError)
        → (check_peer calls peer verified w).0.0 ≡ some e
        → (check_peer calls peer verified w).1 ≡ (checked peer w).1
    unfolding check_peer recorded
    check_peer-world peer verified w e h =
        elim (Bool-cases (not (is_some peer.card_key) || card_ok peer.name verified)) [
          | inl known ↦ absurd (ground (arith, h, known))
          | inr unknown ↦ rw (unknown, check_peer) (recorded-world peer verified (checked peer w))
        ]
      where
        recorded-world :
            (peer : Peer) (verified : Map Bool) (out : Option CardError × W)
            → (recorded calls peer verified out).1 ≡ out.1
        recorded-world peer verified (some e, w) = refl
        recorded-world peer verified (none, w) = refl

    on_checked-IsGuarded :
        (visits : List Visit) (args : Map Json) (w : W) (peer : Peer) (message : Str)
        (out : (Option CardError × Map Bool) × W)
        → as_str (lookup (bytes "peer") args) ≡ some peer.name
        → as_str (lookup (bytes "message") args) ≡ some message
        → lookup peer.name t.by_name ≡ some peer
        → ((e : CardError) → out.0.0 ≡ some e → out.1 ≡ (checked peer w).1)
        → IsChecked visits peer out
        → IsGuarded visits args w (on_checked calls peer message out)
          × IsSafe visits (on_checked calls peer message out).0.1
    unfolding on_checked peer_error
    on_checked-IsGuarded visits args w peer message ((some e, verified), w') f g found world
          (safe, trusted) =
        (refused refl (inr (peer, world e refl)), safe)
    on_checked-IsGuarded visits args w peer message ((none, verified), w') f g found world
          (safe, trusted) =
        (sent peer message w' f g found (trusted refl) refl, safe)

    requested_sound :
        (args : Map Json) (peer : Peer) (message : Str)
        → IsNamed t.by_name
        → requested calls t args ≡ ok (peer, message)
        → (as_str (lookup (bytes "peer") args) ≡ some peer.name)
          × (as_str (lookup (bytes "message") args) ≡ some message)
          × (lookup peer.name t.by_name ≡ some peer)
    unfolding requested
    requested_sound args peer message named h =
        let (name, f, h1) = >>=-eq-ok (required (as_str (lookup (bytes "peer") args)) _) _ h in
        let (text, g, h2) = >>=-eq-ok (required (as_str (lookup (bytes "message") args)) _) _ h1 in
        let (found, k, h3) = >>=-eq-ok (or_fail (lookup name t.by_name) _) _ h2 in
        let asked = required_sound _ _ f in
        let told = required_sound _ _ g in
        let entry = or_fail-eq-ok (lookup name t.by_name) _ k in
        let same_peer : found ≡ peer = cc h3 in
        let same_text : text ≡ message = cc h3 in
        let at_name : peer.name ≡ name =
          subst (λ x. x.name ≡ name) same_peer (named name found entry) in
        (
          asked ∙ ap some (sym at_name),
          told ∙ ap some same_text,
          ap (λ n. lookup n t.by_name) at_name ∙ entry ∙ ap some same_peer,
        )

    execute-IsGuarded_of_IsSafe :
        (visits : List Visit) (args : Map Json) (verified : Map Bool) (w : W)
        → IsNamed t.by_name
        → IsSafe visits verified
        → let now : List Visit = record { args = args; held = verified; world = w } ∷ visits in
          IsGuarded now args w (execute calls t args verified w)
          × IsSafe now (execute calls t args verified w).0.1
    unfolding execute
    execute-IsGuarded_of_IsSafe visits args verified w named safe =
        let visit : Visit = record { args = args; held = verified; world = w } in
        elim (Result-cases (requested calls t args)) [
          | inl (e, failed) ↦
              rw (failed, execute)
                (refused refl (inl refl), IsSafe-later visit visits verified safe)
          | inr (asked, done) ↦
              let (f, g, found) = requested_sound args asked.0 asked.1 named done in
              rw (done, execute)
                (on_checked-IsGuarded (visit ∷ visits) args w asked.0 asked.1
                  (check_peer calls asked.0 verified w) f g found
                  (check_peer-world asked.0 verified w)
                  (check_peer-IsChecked visits asked.0 verified w args asked.1 found done safe))
        ]

    Ran-IsSafe :
        {visits : List Visit} {verified : Map Bool}
        → IsNamed t.by_name
        → Ran visits verified
        → IsSafe visits verified
    unfolding lookup card_ok
    Ran-IsSafe named fresh = λ peer e h. absurd (cc h)
    Ran-IsSafe named (called {visits = visits} {verified = verified} args w ran) =
        (execute-IsGuarded_of_IsSafe visits args verified w named (Ran-IsSafe named ran)).1

  -- After any calls of the tool, and whatever happened outside in between: Execute returns an error,
  -- with at most a card fetched, or it sends the message to the peer of the name that was asked for,
  -- and to a peer with a key only if this call or one of those before asked for that peer, with its
  -- card not known to be verified, and verified it with the key, in the world as that call found it.
  pub execute-IsGuarded :
      (peers : List Peer) {visits : List Visit} {verified : Map Bool} (args : Map Json) (w : W)
      → Ran (new peers) visits verified
      → IsGuarded
          (new peers)
          (record { args = args; held = verified; world = w } ∷ visits)
          args
          w
          (execute calls (new peers) args verified w)
  execute-IsGuarded peers {visits = visits} {verified = verified} args w ran =
      let named = new-IsNamed peers in
      (execute-IsGuarded_of_IsSafe (new peers) visits args verified w named
        (Ran-IsSafe (new peers) named ran)).0
