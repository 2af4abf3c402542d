-- ===== src/Auth/Keys/Flight/Single.antt =====
-- keys.go under concurrent requests: one refresh at a time, and no two of them close together.
use mathlib.Core.Option.{some-injective}
use docsclaw.Base.{
  ℕ, zero, suc, ◌+◌, ◌≤◌, ◌<◌, Str, lookup, Option, none, some, List, [], ◌∷◌, ◌++◌, Bool, true,
  false, ◌≡◌, refl, ap, ◌∙◌, arith, if◌then◌else◌, ok, err, get_elem?, set, ◌⊎◌, inl, inr,
  Option-cases, Bool-cases, is_some,
}
use docsclaw.Auth.Keys.{
  fetch_failed, key_error, JwksReply, KeySource, Begun, finished, wait, fetch, refresh_started,
  fetched, rate_limited, begin, awaited, finish,
}
use docsclaw.Auth.Keys.Flight.{
  Phase, arrived, waiting, fetching, done, Sys, Event, arrive, pass_time, start, wake, cancel, land,
  initial, phase_of, is_fetch, start_phase, wake_phase, cancel_phase, land_phase, step, run,
  one_if_fetching, in_flight,
}

-- The times, newest first, lie at least `interval` apart.
abbrev pub IsSpaced : ℕ → List ℕ → Type 0
IsSpaced interval [] = Unit
IsSpaced interval (t ∷ []) = Unit
IsSpaced interval (t ∷ u ∷ ts) = (u + interval ≤ t) × IsSpaced interval (u ∷ ts)

-- The source knows of the newest fetch.
abbrev Knows : Bool → ℕ → List ℕ → Type 0
Knows attempted last [] = attempted ≡ false
Knows attempted last (t ∷ ts) = (attempted ≡ true) × (last ≡ t)

abbrev pub flights : Bool → ℕ
flights refreshing = if refreshing then 1 else 0

IsSpaced-cons :
    (interval now last : ℕ) (attempted : Bool) (ts : List ℕ)
    → Knows attempted last ts
    → (attempted ≡ true → last + interval ≤ now)
    → IsSpaced interval ts
    → IsSpaced interval (now ∷ ts)
IsSpaced-cons interval now last attempted [] k apart h = tt
IsSpaced-cons interval now last attempted (t ∷ ts) k apart h = (omega (arith, apart k.0, k.1), h)

module _ {Key : Type 0} where
  in_flight-append :
      (ps : List (Phase Key)) (kid : Str) → in_flight (ps ++ arrived kid ∷ []) ≡ in_flight ps
  in_flight-append [] kid = refl
  in_flight-append (p ∷ ps) kid = omega (arith, in_flight-append ps kid)

  in_flight-set :
      (ps : List (Phase Key)) (i : ℕ) (p q : Phase Key)
      → get_elem? ps i ≡ some p
      → in_flight (set ps i q) + one_if_fetching p ≡ in_flight ps + one_if_fetching q
  in_flight-set [] i p q h = absurd (cc)
  in_flight-set (x ∷ ps) zero p q h = omega (arith, ap one_if_fetching (some-injective _ _ h))
  in_flight-set (x ∷ ps) (suc i) p q h = omega (arith, in_flight-set ps i p q h)

  pub record IsSound (interval : ℕ) (s : Sys Key) : Type 0 where
    pub flight : in_flight s.requests ≡ flights s.source.refreshing
    pub channel : is_some s.source.refresh_done ≡ s.source.refreshing
    pub past : s.source.last_fetch ≤ s.clock
    pub begun : s.source.refreshing ≡ true → s.source.attempted ≡ true
    pub known : Knows s.source.attempted s.source.last_fetch s.fetches
    pub spaced : IsSpaced interval s.fetches

  pub initial-IsSound : (interval : ℕ) → IsSound interval (initial {Key = Key})
  unfolding initial
  initial-IsSound interval = record {
    flight = refl;
    channel = refl;
    past = omega arith;
    begun = λ e. absurd (cc);
    known = refl;
    spaced = tt;
  }

  begin-cases :
      (interval now : ℕ) (kid : Str) (k : KeySource Key)
      → ((b : Begun Key) × (is_fetch b ≡ false) × (begin interval now kid k ≡ (b, k)))
        ⊎ ((begin interval now kid k ≡ (fetch, refresh_started now k))
            × (k.refreshing ≡ false)
            × (rate_limited interval now k ≡ false))
  unfolding begin is_fetch refresh_started
  begin-cases interval now kid k = elim (Option-cases (lookup kid k.keys)) [
    | inr (key, e) ↦ inl (finished (ok key), refl, ground arith)
    | inl e ↦ elim (Bool-cases (rate_limited interval now k)) [
      | inl l ↦ inl (finished (err (key_error k.last_err)), refl, ground arith)
      | inr l ↦ elim (Bool-cases k.refreshing) [
        | inr f ↦ inr (ground arith, f, l)
        | inl f ↦ elim (Option-cases k.refresh_done) [
          | inl d ↦ inl (finished (err fetch_failed), refl, ground arith)
          | inr (d, g) ↦ inl (wait d, refl, ground arith)
        ]
      ]
    ]
  ]

  phase_of_quiet :
      (kid : Str) (b : Begun Key) → is_fetch b ≡ false → one_if_fetching (phase_of kid b) ≡ 0
  unfolding phase_of is_fetch
  phase_of_quiet kid (finished r) h = refl
  phase_of_quiet kid (wait d) h = refl
  phase_of_quiet kid fetch h = absurd (cc)

  apart_of_allowed :
      (interval now : ℕ) (k : KeySource Key)
      → rate_limited interval now k ≡ false
      → k.last_fetch ≤ now
      → k.attempted ≡ true
      → k.last_fetch + interval ≤ now
  unfolding rate_limited
  apart_of_allowed interval now k h p a = ground arith

  start-IsSound :
      (interval i : ℕ) (p : Option (Phase Key)) (s : Sys Key)
      → get_elem? s.requests i ≡ p
      → IsSound interval s
      → IsSound interval (start_phase interval i p s)
  unfolding start_phase begin phase_of is_fetch
  start-IsSound interval i none s e h = h
  start-IsSound interval i (some (waiting kid d)) s e h = h
  start-IsSound interval i (some (fetching kid)) s e h = h
  start-IsSound interval i (some (done r)) s e h = h
  start-IsSound interval i (some (arrived kid)) s e h =
      elim (begin-cases interval s.clock kid s.source) [
        | inl (b, quiet, same) ↦
            let moved = in_flight-set s.requests i (arrived kid) (phase_of kid b) e in
            rw same (record {
              flight = ground (arith, moved, phase_of_quiet kid b quiet, h.flight);
              channel = h.channel;
              past = h.past;
              begun = h.begun;
              known = rw quiet h.known;
              spaced = rw quiet h.spaced;
            })
        | inr (same, idle, allowed) ↦
            let moved = in_flight-set s.requests i (arrived kid) (fetching kid) e in
            rw same (record {
              flight = ground (arith, moved, h.flight, idle);
              channel = refl;
              past = omega arith;
              begun = λ _. refl;
              known = (refl, refl);
              spaced =
                  IsSpaced-cons interval s.clock s.source.last_fetch s.source.attempted s.fetches
                    h.known (apart_of_allowed interval s.clock s.source allowed h.past) h.spaced;
            })
      ]

  wake-IsSound :
      (interval i : ℕ) (p : Option (Phase Key)) (s : Sys Key)
      → get_elem? s.requests i ≡ p
      → IsSound interval s
      → IsSound interval (wake_phase i p s)
  unfolding wake_phase
  wake-IsSound interval i (some (waiting kid d)) s e h =
      let moved = in_flight-set s.requests i (waiting kid d) (done (awaited kid s.source)) e in
      ground (arith, moved)
  wake-IsSound interval i _ s e h = h

  cancel-IsSound :
      (interval i : ℕ) (p : Option (Phase Key)) (s : Sys Key)
      → get_elem? s.requests i ≡ p
      → IsSound interval s
      → IsSound interval (cancel_phase i p s)
  unfolding cancel_phase
  cancel-IsSound interval i (some (waiting kid d)) s e h =
      let moved = in_flight-set s.requests i (waiting kid d) (done (err fetch_failed)) e in
      ground (arith, moved)
  cancel-IsSound interval i _ s e h = h

  land-IsSound :
      (interval i : ℕ) (reply : Option (JwksReply Key)) (p : Option (Phase Key)) (s : Sys Key)
      → get_elem? s.requests i ≡ p
      → IsSound interval s
      → IsSound interval (land_phase i reply p s)
  unfolding land_phase finish
  land-IsSound interval i reply (some (fetching kid)) s e h =
      let result = finish (fetched reply) kid s.source in
      let moved = in_flight-set s.requests i (fetching kid) (done result.0) e in
      elim (Option-cases (fetched reply)) [
        | inl f ↦ ground (arith, moved, f, h.flight)
        | inr (keys, f) ↦ ground (arith, moved, f, h.flight)
      ]
  land-IsSound interval i reply _ s e h = h

  pub step-IsSound :
      (interval : ℕ) (ev : Event Key) (s : Sys Key)
      → IsSound interval s
      → IsSound interval (step interval ev s)
  unfolding step
  step-IsSound interval (arrive kid) s h = record {
    flight = in_flight-append s.requests kid ∙ h.flight;
    channel = h.channel;
    past = h.past;
    begun = h.begun;
    known = h.known;
    spaced = h.spaced;
  }
  step-IsSound interval (pass_time n) s h = record {
    flight = h.flight;
    channel = h.channel;
    past = omega (arith, h.past);
    begun = h.begun;
    known = h.known;
    spaced = h.spaced;
  }
  step-IsSound interval (start i) s h = start-IsSound interval i _ s refl h
  step-IsSound interval (wake i) s h = wake-IsSound interval i _ s refl h
  step-IsSound interval (cancel i) s h = cancel-IsSound interval i _ s refl h
  step-IsSound interval (land i reply) s h = land-IsSound interval i reply _ s refl h

  pub run-IsSound :
      (interval : ℕ) (es : List (Event Key)) (s : Sys Key)
      → IsSound interval s
      → IsSound interval (run interval es s)
  unfolding run
  run-IsSound interval [] s h = h
  run-IsSound interval (e ∷ es) s h = run-IsSound interval es _ (step-IsSound interval e s h)

  -- Whatever requests arrive, wait, are cancelled and fetch, in any order and with any replies, at
  -- most one of them is fetching the key set at any time, exactly one while the source says that
  -- it is refreshing, and the times at which fetches began lie at least the interval apart.
  pub single_flight :
      (interval : ℕ) (es : List (Event Key))
      → let s = run interval es initial in
        (in_flight s.requests ≡ flights s.source.refreshing)
        × (in_flight s.requests ≤ 1)
        × IsSpaced interval s.fetches
  single_flight interval es =
      let h = run-IsSound interval es initial (initial-IsSound interval) in
      (h.flight, ground (arith, h.flight), h.spaced)

  -- A request for a key that is not cached, started within the interval of a fetch that is still
  -- under way, does not wait for that fetch: it is refused at once, with the error of the fetch
  -- before, and as an unknown key if that one succeeded or there was none.
  pub start_overlapping :
      (interval i : ℕ) (es : List (Event Key)) (kid : Str)
      → let s = run interval es initial in
        get_elem? s.requests i ≡ some (arrived kid)
        → in_flight s.requests ≡ 1
        → lookup kid s.source.keys ≡ none
        → s.clock < s.source.last_fetch + interval
        → step interval (start i) s
          ≡ record s { requests = set s.requests i (done (err (key_error s.source.last_err))) }
  unfolding step start_phase begin rate_limited phase_of is_fetch
  start_overlapping interval i es kid here one e h =
      let s = run interval es initial in
      let sound = run-IsSound interval es initial (initial-IsSound interval) in
      let busy : s.source.refreshing ≡ true = ground (arith, sound.flight) in
      let attempted = sound.begun busy in ground (arith, attempted)
