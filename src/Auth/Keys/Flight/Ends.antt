-- ===== src/Auth/Keys/Flight/Ends.antt =====
-- keys.go under concurrent requests: a request that waits is served.
use docsclaw.Base.{
  ℕ, zero, suc, ◌<◌, Str, Option, some, List, [], ◌∷◌, true, false, ◌≡◌, ◌≢◌, refl, ap, sym, ◌∙◌,
  arith, Result, get_elem?, length, get_elem?-set_self, get_elem?-set_ne, inl, inr, Option-cases,
  Bool-cases, ◌⊎◌, or_else, is_none, Map, lookup, ok, err, none, Bool, if◌then◌else◌,
}
use docsclaw.Auth.Keys.{
  KeyError, fetch_failed, key_unknown, KeySource, JwksReply, fetched, awaited, finish,
}
use docsclaw.Auth.Keys.Flight.{
  Phase, waiting, fetching, done, Sys, Event, wake, land, is_open, initial, wake_phase, land_phase,
  step, run, in_flight,
}
use docsclaw.Auth.Keys.Flight.Single.{IsSound, initial-IsSound, run-IsSound}

lt_of_get_elem? :
    {A : Type 0} (xs : List A) (i : ℕ) {a : A} → get_elem? xs i ≡ some a → i < length xs
lt_of_get_elem? [] i h = absurd (cc h)
lt_of_get_elem? (x ∷ xs) zero h = omega arith
lt_of_get_elem? (x ∷ xs) (suc i) h = omega (arith, lt_of_get_elem? xs i h)

module _ {Key : Type 0} where
  waiting_not_fetching :
      {kid other : Str} {d : ℕ}
      → ◌≢◌ {A = Option (Phase Key)} (some (waiting kid d)) (some (fetching other))
  waiting_not_fetching e = absurd (cc e)

  -- A request that fetches, where there is one.
  fetching_of :
      (ps : List (Phase Key))
      → in_flight ps ≢ 0
      → (j : ℕ) × (kid : Str) × (get_elem? ps j ≡ some (fetching kid))
  fetching_of [] h = absurd (h refl)
  fetching_of (fetching kid ∷ ps) h = (0, kid, refl)
  fetching_of (Phase.arrived kid ∷ ps) h =
      let (j, kid', e) = fetching_of ps (λ e. h (omega (arith, e))) in (suc j, kid', e)
  fetching_of (waiting kid d ∷ ps) h =
      let (j, kid', e) = fetching_of ps (λ e. h (omega (arith, e))) in (suc j, kid', e)
  fetching_of (done r ∷ ps) h =
      let (j, kid', e) = fetching_of ps (λ e. h (omega (arith, e))) in (suc j, kid', e)

  -- What a request for `kid` is told, by the keys that are there and whether the last fetch failed.
  abbrev pub verdict : Map Key → Bool → Str → Result KeyError Key
  verdict keys failed kid = elim (lookup kid keys) [
    | some key ↦ ok key
    | none ↦ if failed then err fetch_failed else err key_unknown
  ]

  awaited-verdict : (kid : Str) (k : KeySource Key) → awaited kid k ≡ verdict k.keys k.last_err kid
  unfolding awaited
  awaited-verdict kid k = elim (Option-cases (lookup kid k.keys)) [
    | inl e ↦ elim (Bool-cases k.last_err) [
      | inl f ↦ ground (arith, e, f)
      | inr f ↦ ground (arith, e, f)
    ]
    | inr (key, e) ↦ ground (arith, e)
  ]

  module _ (interval : ℕ) (i : ℕ) (kid : Str) (d : ℕ) where
    abbrev IsWaiting : Sys Key → Type 0
    IsWaiting s = get_elem? s.requests i ≡ some (waiting kid d)

    wake-done :
        (s : Sys Key)
        → IsWaiting s
        → is_open s.source.refresh_done d ≡ false
        → get_elem? (step interval (wake i) s).requests i ≡ some (done (awaited kid s.source))
    unfolding step wake_phase
    wake-done s e closed =
        rw (e, closed, step, wake_phase)
          (get_elem?-set_self s.requests i _ (lt_of_get_elem? s.requests i e))

    land-IsWaiting :
        (s : Sys Key) (j : ℕ) (other : Str) (reply : Option (JwksReply Key))
        → IsWaiting s
        → get_elem? s.requests j ≡ some (fetching other)
        → IsWaiting (step interval (land j reply) s)
          × (is_open (step interval (land j reply) s).source.refresh_done d ≡ false)
    unfolding step land_phase finish is_open
    land-IsWaiting s j other reply e f =
        let apart : j ≢ i =
          λ same. waiting_not_fetching (sym e ∙ ap (get_elem? s.requests) (sym same) ∙ f) in
        elim (Option-cases (fetched reply)) [
          | inl g ↦
              rw (f, step, land_phase) (rw g (get_elem?-set_ne s.requests j i _ apart ∙ e, refl))
          | inr (keys, g) ↦
              rw (f, step, land_phase) (rw g (get_elem?-set_ne s.requests j i _ apart ∙ e, refl))
        ]

    busy :
        (s : Sys Key)
        → IsSound interval s
        → is_open s.source.refresh_done d ≡ true
        → in_flight s.requests ≢ 0
    unfolding is_open
    busy s sound not_yet none_fetch = elim (Option-cases s.source.refresh_done) [
      | inl closed ↦ absurd (ground (arith, not_yet, closed))
      | inr (c, g) ↦ absurd (ground (arith, none_fetch, g, sound.flight, sound.channel))
    ]

    landed-source :
        (s : Sys Key) (j : ℕ) (other : Str) (reply : Option (JwksReply Key))
        → get_elem? s.requests j ≡ some (fetching other)
        → verdict
            (step interval (land j reply) s).source.keys
            (step interval (land j reply) s).source.last_err
            kid
          ≡ verdict (or_else (fetched reply) s.source.keys) (is_none (fetched reply)) kid
    unfolding step land_phase finish
    landed-source s j other reply f = elim (Option-cases (fetched reply)) [
      | inl g ↦ rw (f, step, land_phase) (rw g refl)
      | inr (keys, g) ↦ rw (f, step, land_phase) (rw g refl)
    ]

    -- The steps that serve the request, and what it is told.
    abbrev pub IsServed : Option (JwksReply Key) → Sys Key → Type 0
    IsServed reply s =
        (get_elem? (run interval (wake i ∷ []) s).requests i
          ≡ some (done (verdict s.source.keys s.source.last_err kid)))
        ⊎ ((j : ℕ) × (other : Str) × (get_elem? s.requests j ≡ some (fetching other))
            × (get_elem? (run interval (land j reply ∷ wake i ∷ []) s).requests i
                ≡ some (
                    done (
                      verdict (or_else (fetched reply) s.source.keys) (is_none (fetched reply))
                        kid))))

    served :
        (s : Sys Key) (reply : Option (JwksReply Key))
        → IsSound interval s
        → IsWaiting s
        → IsServed reply s
    unfolding run
    served s reply sound e = elim (Bool-cases (is_open s.source.refresh_done d)) [
      | inr closed ↦
          inl (wake-done s e closed ∙ ap (λ r. some (done r)) (awaited-verdict kid s.source))
      | inl not_yet ↦
          let (j, other, f) = fetching_of s.requests (busy s sound not_yet) in
          let s' = step interval (land j reply) s in
          let (still, closed) = land-IsWaiting s j other reply e f in
          inr (
            j,
            other,
            f,
            wake-done s' still closed
                ∙ ap (λ r. some (done r))
                    (awaited-verdict kid s'.source ∙ landed-source s j other reply f),
          )
    ]

  -- No waiting request is stuck. After any events, for a request that waits for the key `kid`, whatever
  -- the fetch comes to: a wake serves it at once, with the key if that is there, and else with the
  -- error of the last fetch; or there is a request that fetches, and when its reply lands a wake
  -- serves it, with the key if that is in the reply, or among the old keys where the fetch failed,
  -- and else with the error of that fetch.
  pub waiting-served :
      (interval i d : ℕ) (kid : Str) (es : List (Event Key)) (reply : Option (JwksReply Key))
      → get_elem? (run interval es initial).requests i ≡ some (waiting kid d)
      → IsServed interval i kid d reply (run interval es initial)
  waiting-served interval i d kid es reply e =
      served interval i kid d (run interval es initial) reply
        (run-IsSound interval es initial (initial-IsSound interval)) e
