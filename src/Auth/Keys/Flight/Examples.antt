-- ===== src/Auth/Keys/Flight/Examples.antt =====
-- Two requests for one key: the second arrives while the first fetches.
use docsclaw.Base.{
  ℕ, ◌≤◌, ◌<◌, ◌+◌, bytes, lookup, none, some, List, [], ◌∷◌, ◌≡◌, refl, arith, err, get_elem?, set,
}
use docsclaw.Auth.Keys.{key_error, rate_limited, begin}
use docsclaw.Auth.Keys.Flight.{
  arrived, waiting, done, Event, arrive, pass_time, start, initial, step, run, in_flight,
}
use docsclaw.Auth.Keys.Flight.Ends.{IsServed, waiting-served}
use docsclaw.Auth.Keys.Flight.Single.{IsSpaced, flights, single_flight, start_overlapping}

abbrev events : List (Event ℕ)
events = arrive (bytes "k") ∷ start 0 ∷ pass_time 5 ∷ arrive (bytes "k") ∷ []

single_flight_example :
    let s = run 60 events initial in
    (in_flight s.requests ≡ flights s.source.refreshing)
    × (in_flight s.requests ≤ 1)
    × IsSpaced 60 s.fetches
single_flight_example = single_flight 60 events

second_arrived : get_elem? (run 60 events initial).requests 1 ≡ some (arrived (bytes "k"))
unfolding run step initial begin lookup rate_limited
second_arrived = refl

first_fetching : in_flight (run 60 events initial).requests ≡ 1
unfolding run step initial begin lookup rate_limited
first_fetching = refl

nothing_cached : lookup (bytes "k") (run 60 events initial).source.keys ≡ none
unfolding run step initial begin lookup rate_limited
nothing_cached = refl

within_interval : (run 60 events initial).clock < (run 60 events initial).source.last_fetch + 60
unfolding run step initial begin lookup rate_limited
within_interval = omega arith

start_overlapping_example :
    let s = run 60 events initial in
    step 60 (start 1) s
    ≡ record s { requests = set s.requests 1 (done (err (key_error s.source.last_err))) }
start_overlapping_example =
    start_overlapping 60 1 events (bytes "k") second_arrived first_fetching nothing_cached
      within_interval

-- The second request arrives once the interval is over, while the first still fetches.
abbrev later_events : List (Event ℕ)
later_events = arrive (bytes "k") ∷ start 0 ∷ pass_time 60 ∷ arrive (bytes "k") ∷ start 1 ∷ []

second_waiting : get_elem? (run 60 later_events initial).requests 1 ≡ some (waiting (bytes "k") 0)
unfolding run step initial begin lookup rate_limited
second_waiting = refl

waiting-served_example : IsServed 60 1 (bytes "k") 0 none (run 60 later_events initial)
waiting-served_example = waiting-served 60 1 0 (bytes "k") later_events none second_waiting
