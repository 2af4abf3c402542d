-- ===== src/Peers/Call/Examples.antt =====
-- Calls of a peer with a key, and the theorem on them.
use docsclaw.Base.{ℕ, ◌+◌, bytes, Bool, Map, none, some, List, [], ◌∷◌, ok}
use docsclaw.Json.{Json, str}
use docsclaw.Peers.Card.Examples.{json, jws, key}
use docsclaw.Peers.Card.{fetched}
use docsclaw.Peers.Invoke.{message_result, dispatched}
use docsclaw.Peers.Call.{Peer, new, Calls, execute}
use docsclaw.Peers.Call.Trusted.{fresh, called, IsGuarded, execute-IsGuarded}

-- Each request counts, and the card is fetched as it should be.
abbrev pub calls : Calls ℕ
calls = record {
  web = record {
    parse_url = λ _. ok (record { scheme = bytes "http"; host = bytes "peer" });
    get = λ _ _ _ _ w. (fetched 200 (bytes "card") none, w + 1);
  };
  jws = jws;
  json = json;
  max_card = 1048576;
  sdk = record {
    state_failed = bytes "TASK_STATE_FAILED";
    state_rejected = bytes "TASK_STATE_REJECTED";
    send = λ _ _ _ w. (dispatched [] (ok (message_result (bytes "hi" ∷ []))), w + 1);
  };
  texts = record { unmarshal_error = λ _. none; status_text = λ _. []; to_lower = λ s. s };
}

abbrev peers : List Peer
peers =
    record { name = bytes "p"; url = bytes "http://peer/"; description = []; card_key = some key }
    ∷ []

abbrev args : Map Json
args = (bytes "peer", str (bytes "p")) ∷ (bytes "message", str (bytes "hello")) ∷ []

abbrev held : Map Bool
held = (execute calls (new peers) args [] 0).0.1

execute-IsGuarded_example :
    IsGuarded calls
      (new peers)
      (record { args = args; held = held; world = 1 }
        ∷ record { args = args; held = []; world = 0 }
        ∷ [])
      args
      1
      (execute calls (new peers) args held 1)
execute-IsGuarded_example = execute-IsGuarded calls peers args 1 (called args 0 fresh)
