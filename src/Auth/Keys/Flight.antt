-- ===== src/Auth/Keys/Flight.antt =====
-- keys.go under concurrent requests: any order of the sections that the mutex makes atomic.
pub mod Single
pub mod Ends
pub mod Examples
use docsclaw.Base.{
  ℕ, zero, suc, ◌+◌, ◌-◌, ◌≤◌, ◌<◌, Str, Map, lookup, Option, none, some, List, [], ◌∷◌, ◌++◌, Bool,
  true, false, ◌≡◌, ◌≢◌, refl, arith, ltb, eqb, if◌then◌else◌, Result, ok, err, get_elem?, set, ◌⊎◌,
  inl, inr, Option-cases, Bool-cases,
}
use docsclaw.Auth.Keys.{
  KeyError, fetch_failed, key_unknown, key_error, found, JwksReply, KeySource, Begun, finished,
  wait, fetch, new_key_source, fetched, rate_limited, begin, awaited, finish,
}

-- Where a request stands: in front of the first section, waiting for a channel, fetching, or done.
pub data Phase (Key : Type 0) : Type 0 where
  arrived : Str → Phase Key
  waiting : Str → ℕ → Phase Key
  fetching : Str → Phase Key
  done : Result KeyError Key → Phase Key

-- `fetches` records the times at which a fetch began, the newest first.
pub record Sys (Key : Type 0) : Type 0 where
  pub source : KeySource Key
  pub clock : ℕ
  pub requests : List (Phase Key)
  pub fetches : List ℕ

pub data Event (Key : Type 0) : Type 0 where
  arrive : Str → Event Key
  pass_time : ℕ → Event Key
  start wake cancel : ℕ → Event Key
  land : ℕ → Option (JwksReply Key) → Event Key

-- A channel is closed if it is not the open one.
is_open : Option ℕ → ℕ → Bool
is_open none d = false
is_open (some c) d = eqb c d

module _ {Key : Type 0} where
  pub initial : Sys Key
  unfolding new_key_source
  initial = record { source = new_key_source; clock = 0; requests = []; fetches = [] }

  phase_of : Str → Begun Key → Phase Key
  phase_of kid (finished result) = done result
  phase_of kid (wait d) = waiting kid d
  phase_of kid fetch = fetching kid

  is_fetch : Begun Key → Bool
  is_fetch fetch = true
  is_fetch _ = false

  -- Each step acts on the request with index `i`, if that is in the phase for it.
  start_phase : ℕ → ℕ → Option (Phase Key) → Sys Key → Sys Key
  start_phase interval i (some (arrived kid)) s =
      let (begun, source) = begin interval s.clock kid s.source in
      record {
        source = source;
        clock = s.clock;
        requests = set s.requests i (phase_of kid begun);
        fetches = if is_fetch begun then s.clock ∷ s.fetches else s.fetches;
      }
  start_phase interval i _ s = s

  wake_phase : ℕ → Option (Phase Key) → Sys Key → Sys Key
  wake_phase i (some (waiting kid d)) s =
      if is_open s.source.refresh_done d
      then s
      else record s { requests = set s.requests i (done (awaited kid s.source)) }
  wake_phase i _ s = s

  cancel_phase : ℕ → Option (Phase Key) → Sys Key → Sys Key
  cancel_phase i (some (waiting kid d)) s = record s {
    requests = set s.requests i (done (err fetch_failed));
  }
  cancel_phase i _ s = s

  land_phase : ℕ → Option (JwksReply Key) → Option (Phase Key) → Sys Key → Sys Key
  land_phase i reply (some (fetching kid)) s =
      let (result, source) = finish (fetched reply) kid s.source in
      record s { source = source; requests = set s.requests i (done result) }
  land_phase i reply _ s = s

  pub step : ℕ → Event Key → Sys Key → Sys Key
  unfolding start_phase wake_phase cancel_phase land_phase phase_of is_fetch is_open
  step interval (arrive kid) s = record s { requests = s.requests ++ arrived kid ∷ [] }
  step interval (pass_time n) s = record s { clock = s.clock + n }
  step interval (start i) s = start_phase interval i (get_elem? s.requests i) s
  step interval (wake i) s = wake_phase i (get_elem? s.requests i) s
  step interval (cancel i) s = cancel_phase i (get_elem? s.requests i) s
  step interval (land i reply) s = land_phase i reply (get_elem? s.requests i) s

  pub run : ℕ → List (Event Key) → Sys Key → Sys Key
  run interval [] s = s
  run interval (e ∷ es) s = run interval es (step interval e s)

  abbrev one_if_fetching : Phase Key → ℕ
  one_if_fetching (fetching kid) = 1
  one_if_fetching _ = 0

  -- How many requests are fetching.
  abbrev pub in_flight : List (Phase Key) → ℕ
  in_flight [] = 0
  in_flight (p ∷ ps) = one_if_fetching p + in_flight ps
