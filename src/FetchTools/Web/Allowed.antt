-- ===== src/FetchTools/Web/Allowed.antt =====
-- webfetch.go: where the hosts are restricted, no other host is asked, redirects included.
use mathlib.Core.List.{Memᴰ, append-nil, reverse-append, reverse-reverse}
use docsclaw.Base.{
  ℕ, Str, bytes, ◌==◌, eq_iff, has_suffix, has_prefix-eq, reverse, Map, Option, none, List, [], ◌∷◌,
  ◌++◌, true, ◌≡◌, ◌≢◌, ◌⊎◌, refl, sym, ap, subst, ◌∙◌, arith, inl, inr, Bool-cases, Option-cases,
  List-cases, Result, Result-cases, ok, All, lookup,
}
use docsclaw.Json.{Json, as_str}
use docsclaw.FetchTools.Web.{
  WebFetchConfig, ParsedUrl, WebClient, host_in, is_host_allowed, is_restricted, check_redirect,
  admitted, execute,
}

has_suffix-eq : (s p : Str) → has_suffix s p ≡ true → (front : Str) × (s ≡ front ++ p)
unfolding has_suffix
has_suffix-eq s p h =
    let (r, e) = has_prefix-eq (reverse s) (reverse p) h in
    (
      reverse r,
      sym (reverse-reverse s)
          ∙ ap reverse e
          ∙ reverse-append (reverse p) r
          ∙ ap (λ l. reverse r ++ l) (reverse-reverse p),
    )

ok_injective : {x y : ParsedUrl} → ◌≡◌ {A = Result Str ParsedUrl} (ok x) (ok y) → x ≡ y
ok_injective e = cc e

module _ {W : Type 0} (client : WebClient W) (config : WebFetchConfig) where
  -- Upper and lower case aside, the host is an allowed one or lies below it: a dot stands in between.
  pub data IsAllowed (host : Str) : Type 0 where
    named_host :
        (name : Str)
        → Memᴰ name config.allowed_hosts
        → client.to_lower host ≡ client.to_lower name
        → IsAllowed host
    below_host :
        (name front : Str)
        → Memᴰ name config.allowed_hosts
        → client.to_lower host ≡ front ++ (bytes "." ++ client.to_lower name)
        → IsAllowed host

  host_in_sound :
      (host : Str) (names : List Str)
      → host_in client config host names ≡ true
      → (name : Str) × Memᴰ name names
        × ((host ≡ client.to_lower name)
            ⊎ ((front : Str) × (host ≡ front ++ (bytes "." ++ client.to_lower name))))
  unfolding host_in
  host_in_sound host [] h = absurd (cc h)
  host_in_sound host (name ∷ names) h = elim (Bool-cases (host == client.to_lower name)) [
    | inl e ↦ (name, Memᴰ.head refl, inl ((eq_iff _ _).0 e))
    | inr e ↦ elim (Bool-cases (has_suffix host (bytes "." ++ client.to_lower name))) [
      | inl f ↦ (name, Memᴰ.head refl, inr (has_suffix-eq host _ f))
      | inr f ↦
          let (found, m, g) = host_in_sound host names (ground (arith, h, e, f)) in
          (found, Memᴰ.tail m, g)
    ]
  ]

  is_host_allowed_sound : (host : Str) → is_host_allowed client config host ≡ true → IsAllowed host
  unfolding is_host_allowed
  is_host_allowed_sound host h =
      let (name, m, found) = host_in_sound (client.to_lower host) config.allowed_hosts h in
      elim found [ inl e ↦ named_host name m e | inr (front, e) ↦ below_host name front m e ]

  restricted : config.allowed_hosts ≢ [] → is_restricted client config ≡ true
  unfolding is_restricted
  restricted h = elim (List-cases config.allowed_hosts) [
    | inl e ↦ absurd (h e)
    | inr (x, rest, e) ↦ ground (arith, e)
  ]

  check_redirect_sound :
      (host : Str) (via : ℕ)
      → config.allowed_hosts ≢ []
      → check_redirect client config host via ≡ none
      → IsAllowed host
  unfolding check_redirect
  check_redirect_sound host via some_hosts h =
      let limited = restricted some_hosts in is_host_allowed_sound host (ground (arith, h, limited))

  admitted_sound :
      (args : Map Json) (raw : Str)
      → config.allowed_hosts ≢ []
      → admitted client config args ≡ ok raw
      → (parsed : ParsedUrl) × (client.parse_url raw ≡ ok parsed) × IsAllowed parsed.hostname
  unfolding admitted
  admitted_sound args raw some_hosts h = elim (Option-cases (as_str (lookup (bytes "url") args))) [
    | inl e ↦ absurd (ground (arith, h, e))
    | inr (text, e) ↦ elim (Result-cases (client.parse_url text)) [
      | inl (x, f) ↦ absurd (ground (arith, h, e, f))
      | inr (parsed, f) ↦
          let limited = restricted some_hosts in
          let allowed : is_host_allowed client config parsed.hostname ≡ true =
            ground (arith, h, e, f, limited) in
          let same : text ≡ raw = ground (arith, h, e, f, limited, allowed) in
          (
            parsed,
            subst (λ r. client.parse_url r ≡ ok parsed) same f,
            is_host_allowed_sound parsed.hostname allowed,
          )
    ]
  ]

  -- A client that does as documented: in `observed` stand the hosts that were asked. A GET asks the
  -- host of its URL, and behind it only hosts that the policy let pass.
  abbrev pub IsFollowing : (W → List Str) → Type 0
  IsFollowing observed =
      (raw : Str) (policy : Str → ℕ → Option Str) (w : W)
      → (asked : List Str) × (observed (client.get raw policy w).1 ≡ observed w ++ asked)
        × All
            (λ host.
              ((parsed : ParsedUrl) × (client.parse_url raw ≡ ok parsed) × (host ≡ parsed.hostname))
              ⊎ ((via : ℕ) × (policy host via ≡ none)))
            asked

  asked-IsAllowed :
      (raw : Str) (asked : List Str)
      → config.allowed_hosts ≢ []
      → ((parsed : ParsedUrl) × (client.parse_url raw ≡ ok parsed) × IsAllowed parsed.hostname)
      → All
          (λ host.
            ((parsed : ParsedUrl) × (client.parse_url raw ≡ ok parsed) × (host ≡ parsed.hostname))
            ⊎ ((via : ℕ) × (check_redirect client config host via ≡ none)))
          asked
      → All IsAllowed asked
  asked-IsAllowed raw [] some_hosts allowed h = tt
  asked-IsAllowed raw (host ∷ asked) some_hosts (parsed, e, allowed) (first, h) = (
    elim first [
      | inl (other, f, same) ↦
          let one : other ≡ parsed = ok_injective (sym f ∙ e) in
          subst IsAllowed (sym (same ∙ ap (λ u. u.hostname) one)) allowed
      | inr (via, passed) ↦ check_redirect_sound host via some_hosts passed
    ],
    asked-IsAllowed raw asked some_hosts (parsed, e, allowed) h,
  )

  -- With a list of allowed hosts and a client that does as documented, the hosts that one call of the
  -- tool asks, those of redirects included, are allowed: each is in the list or below one of it.
  pub execute-IsAllowed :
      (observed : W → List Str) (args : Map Json) (w : W)
      → IsFollowing observed
      → config.allowed_hosts ≢ []
      → (asked : List Str) × (observed (execute client config args w).1 ≡ observed w ++ asked)
        × All IsAllowed asked
  unfolding execute
  execute-IsAllowed observed args w following some_hosts =
      elim (Result-cases (admitted client config args)) [
        | inl (e, failed) ↦ ([], rw (failed, execute) (sym (append-nil (observed w))), tt)
        | inr (raw, done) ↦
            let (asked, e, h) = following raw (check_redirect client config) w in
            (
              asked,
              rw (done, execute) e,
              asked-IsAllowed raw asked some_hosts (admitted_sound args raw some_hosts done) h,
            )
      ]
