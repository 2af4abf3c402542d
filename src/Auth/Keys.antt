-- ===== src/Auth/Keys.antt =====
-- keys.go: the cache of the issuer's public keys. Each section under the mutex is one function;
-- the fetch between them runs with the mutex released.
pub mod Flight
use docsclaw.Base.{
  ℕ, zero, suc, ◌+◌, ◌-◌, Str, ◌==◌, Map, lookup, insert, Option, none, some, List, [], ◌∷◌, Bool,
  true, false, ◌&&◌, eqb, ltb, if◌then◌else◌, Result, ok, err, is_some,
}

pub data KeyError : Type 0 where
  fetch_failed key_unknown : KeyError

abbrev pub key_error : Bool → KeyError
key_error last_err = if last_err then fetch_failed else key_unknown

-- A key of a set as jwk.Parse gives it, with its id if it has one.
pub record Jwk (Key : Type 0) : Type 0 where
  pub key_id : Option Str
  pub key : Key

-- The outcome of the HTTP request and of reading its body: `set` is `none` where jwk.Parse fails.
pub record JwksReply (Key : Type 0) : Type 0 where
  pub status : ℕ
  pub set : Option (List (Jwk Key))

-- The fields of `keySource`. `last_err` is whether `lastErr` is not nil. A done channel is a
-- number: `refresh_done` is the open one, and `channels` counts those made so far.
pub record KeySource (Key : Type 0) : Type 0 where
  pub keys : Map Key
  pub attempted : Bool
  pub last_fetch : ℕ
  pub last_err : Bool
  pub refreshing : Bool
  pub refresh_done : Option ℕ
  pub channels : ℕ

-- How the first section of `key` ends: with a result, waiting for another's refresh, or fetching.
pub data Begun (Key : Type 0) : Type 0 where
  finished : Result KeyError Key → Begun Key
  wait : ℕ → Begun Key
  fetch : Begun Key

module _ {Key : Type 0} where
  pub new_key_source : KeySource Key
  new_key_source = record {
    keys = [];
    attempted = false;
    last_fetch = 0;
    last_err = false;
    refreshing = false;
    refresh_done = none;
    channels = 0;
  }

  -- the loop of `fetch` over the set; a later key replaces an earlier one of the same id
  keys_from : Map Key → List (Jwk Key) → Map Key
  keys_from keys [] = keys
  keys_from keys (k ∷ set) = elim (k.key_id) [
    | none ↦ keys_from keys set
    | some kid ↦ keys_from (if kid == [] then keys else insert kid k.key keys) set
  ]

  -- `fetch` behind the request; `none` is an error of the request or of reading the body
  pub fetched : Option (JwksReply Key) → Option (Map Key)
  unfolding keys_from
  fetched none = none
  fetched (some reply) =
      if eqb reply.status 200
      then (elim (reply.set) [ none ↦ none | some set ↦ some (keys_from [] set) ])
      else none

  abbrev pub found : Option Key → KeyError → Result KeyError Key
  found none e = err e
  found (some key) e = ok key

  -- `k.attempted && time.Since(k.lastFetch) < k.cfg.MinRefreshInterval`
  pub rate_limited : ℕ → ℕ → KeySource Key → Bool
  rate_limited interval now k = k.attempted && ltb (now - k.last_fetch) interval

  pub refresh_started : ℕ → KeySource Key → KeySource Key
  refresh_started now k = record k {
    refreshing = true;
    attempted = true;
    last_fetch = now;
    refresh_done = some k.channels;
    channels = suc k.channels;
  }

  -- The first section, up to the release of the mutex. A receive from a nil channel would block
  -- until the request's context ends, which is `fetch_failed`; so would a wait with no refresh.
  pub begin : ℕ → ℕ → Str → KeySource Key → Begun Key × KeySource Key
  unfolding refresh_started
  begin interval now kid k = elim (lookup kid k.keys) [
    | some key ↦ (finished (ok key), k)
    | none ↦
        if rate_limited interval now k
        then (finished (err (key_error k.last_err)), k)
        else elim (k.refreshing) [
          | true ↦
              (elim (k.refresh_done) [ none ↦ finished (err fetch_failed) | some d ↦ wait d ], k)
          | false ↦ (fetch, refresh_started now k)
        ]
  ]

  -- the section behind the wait, once the awaited channel is closed
  pub awaited : Str → KeySource Key → Result KeyError Key
  awaited kid k = found (lookup kid k.keys) (key_error k.last_err)

  -- the section behind `fetch`, with its outcome
  pub finish : Option (Map Key) → Str → KeySource Key → Result KeyError Key × KeySource Key
  finish none kid k =
      (err fetch_failed, record k { last_err = true; refreshing = false; refresh_done = none })
  finish (some keys) kid k = (
    found (lookup kid keys) key_unknown,
    record k { keys = keys; last_err = false; refreshing = false; refresh_done = none },
  )

  -- `key` of a request that no other one overlaps
  pub key :
      ℕ → ℕ → Option (JwksReply Key) → Str → KeySource Key → Result KeyError Key × KeySource Key
  key interval now reply kid k =
      let (begun, k') = begin interval now kid k in
      elim begun [
        | finished result ↦ (result, k')
        | wait d ↦ (err fetch_failed, k')
        | fetch ↦ finish (fetched reply) kid k'
      ]
