-- ===== src/Peers/Call.antt =====
-- a2acall.go: the tool a2a_call.
pub mod Trusted
pub mod Examples
use docsclaw.Base.{
  ℕ, Str, bytes, ◌==◌, strip_prefix, decimal, join, leb, take, Map, lookup, insert, Option, none,
  some, is_some, List, [], ◌∷◌, ◌++◌, map, Bool, true, false, not, ◌||◌, if◌then◌else◌, Result, ok,
  err, ◌>>=◌, or_fail, or_else, any,
}
use docsclaw.Json.{Json, as_str, str, arr, obj, Elems, nil, cons, Fields, end, field}
use docsclaw.Tools.{ToolResult, errorf}
use docsclaw.Peers.Denials.{Texts, describe_response, describe_error}
use docsclaw.Peers.Card.Payloads.{
  CardError, card_format, card_signature, card_http, card_other, JsonCodec,
}
use docsclaw.Peers.Card.{PublicKey, JwsCodec, Web, verify_card}
use docsclaw.Peers.Invoke.{InvokeRequest, InvokeResult, A2aSdk, invoke}

-- The timeout of a peer bounds the context of its calls, which stand outside.
pub record Peer : Type 0 where
  pub name : Str
  pub url : Str
  pub description : Str
  pub card_key : Option PublicKey

pub record A2aCallTool : Type 0 where
  pub peers : List Peer
  pub by_name : Map Peer

pub named : List Peer → Map Peer → Map Peer
named [] by_name = by_name
named (p ∷ peers) by_name = named peers (insert p.name p by_name)

-- `New`; no card is verified yet.
pub new : List Peer → A2aCallTool
unfolding named
new peers = record { peers = peers; by_name = named peers [] }

pub peer_names : A2aCallTool → List Str
peer_names t = map (λ (p : Peer). p.name) t.peers

-- `Description`
pub description : A2aCallTool → Str
description t =
    bytes "Call a configured peer A2A agent by name. Peers: "
    ++ (join (bytes "; ") (map (λ (p : Peer). p.name ++ (bytes ": " ++ p.description)) t.peers)
        ++ bytes ".")

strings : List Str → Elems
strings [] = nil
strings (s ∷ ss) = cons (str s) (strings ss)

fields : Map Json → Fields
fields [] = end
fields ((key, value) ∷ m) = field key value (fields m)

-- `Parameters`
pub parameters : A2aCallTool → Map Json
unfolding strings fields peer_names
parameters t =
    let peer = obj (
      fields (
        (bytes "type", str (bytes "string"))
        ∷ (bytes "description", str (bytes "Peer agent name"))
        ∷ (bytes "enum", arr (strings (peer_names t)))
        ∷ [])) in
    let message = obj (
      fields (
        (bytes "type", str (bytes "string"))
        ∷ (bytes "description", str (bytes "Message to send to the peer"))
        ∷ [])) in
    (bytes "type", str (bytes "object"))
    ∷ (bytes "properties", obj (fields ((bytes "peer", peer) ∷ (bytes "message", message) ∷ [])))
    ∷ (bytes "required", arr (strings (bytes "peer" ∷ bytes "message" ∷ [])))
    ∷ []

ok_result : Str → ToolResult
ok_result text = record { output = text; error = false }

-- The value of an argument that must be a text and not empty.
pub required : Option Str → Str → Result Str Str
required none e = err e
required (some s) e = if s == [] then err e else ok s

-- strings.ReplaceAll(s, "_", "-")
dashed : Str → Str
dashed [] = []
dashed (c ∷ s) = (if c ∷ [] == bytes "_" then bytes "-" else c ∷ []) ++ dashed s

-- The response that captureTransport keeps is the last with a status of at least 400, with at most
-- 64 KiB of its body; `denial` is `none` where there is none.
captured : Option (ℕ × Str) → List (ℕ × Str) → Option (ℕ × Str)
captured seen [] = seen
captured seen ((status, body) ∷ responses) =
    captured (if leb 400 status then some (status, take 65536 body) else seen) responses

pub denial : List (ℕ × Str) → Option (ℕ × Str)
unfolding captured
denial responses = captured none responses

pub card_ok : Str → Map Bool → Bool
card_ok name verified = or_else (lookup name verified) false

-- The code that is called: the card's codecs and client, the A2A SDK, and the texts of denials.
-- `max_card` is the size limit of a card.
pub record Calls (W : Type 0) : Type 0 where
  pub web : Web W
  pub jws : JwsCodec
  pub json : JsonCodec
  pub max_card : ℕ
  pub sdk : A2aSdk W
  pub texts : Texts

module _ {W : Type 0} (calls : Calls W) where
  pub state_name : Str → Str
  unfolding dashed
  state_name raw =
      let s = calls.texts.to_lower raw in dashed (or_else (strip_prefix (bytes "task_state_") s) s)

  pub format_result : InvokeResult → ToolResult
  unfolding ok_result state_name
  format_result result =
      let state = state_name result.state in
      if any (λ s. s == state)
        (bytes "failed" ∷ bytes "rejected" ∷ bytes "canceled" ∷ bytes "cancelled" ∷ [])
      then errorf (bytes "[" ++ (state ++ (bytes "] " ++ result.text)))
      else if any (λ s. s == state) (bytes "input-required" ∷ bytes "auth-required" ∷ [])
      then ok_result (bytes "[" ++ (state ++ (bytes "] peer needs more input: " ++ result.text)))
      else ok_result (bytes "[" ++ (state ++ (bytes "] " ++ result.text)))

  pub card_error_reason : CardError → Str
  card_error_reason (card_http status body) = describe_response calls.texts status body
  card_error_reason (card_format _) = bytes "agent card format invalid"
  card_error_reason (card_signature _) = bytes "agent card signature invalid"
  card_error_reason (card_other text) = describe_error calls.texts text

  pub peer_error : Peer → Str → ToolResult
  peer_error peer reason = errorf (bytes "peer " ++ (peer.name ++ (bytes ": " ++ reason)))

  on_invoked : Peer → Result Str InvokeResult × List (ℕ × Str) → ToolResult
  unfolding format_result peer_error denial
  on_invoked peer (ok result, responses) = format_result result
  on_invoked peer (err e, responses) = elim (denial responses) [
    | none ↦ peer_error peer (describe_error calls.texts e)
    | some seen ↦ peer_error peer (describe_response calls.texts seen.0 seen.1)
  ]

  pub call_peer : Peer → Str → W → ToolResult × W
  unfolding on_invoked
  call_peer peer message w =
      let req : InvokeRequest = record {
        agent_url = peer.url;
        document_id = [];
        message_text = message;
        session_id = [];
      } in
      let (invoked, w') = invoke calls.sdk req w in (on_invoked peer invoked, w')

  pub recorded : Peer → Map Bool → Option CardError × W → (Option CardError × Map Bool) × W
  recorded peer verified (some e, w) = ((some e, verified), w)
  recorded peer verified (none, w) = ((none, insert peer.name true verified), w)

  -- The verification in front of the first call of a peer, as the function that singleflight runs
  -- once for those that come together; only a success is recorded.
  pub check_peer : Peer → Map Bool → W → (Option CardError × Map Bool) × W
  unfolding card_ok recorded
  check_peer peer verified w =
      if not (is_some peer.card_key) || card_ok peer.name verified
      then ((none, verified), w)
      else recorded peer verified
          (verify_card calls.web calls.jws calls.json calls.max_card peer.url peer.card_key w)

  pub requested : A2aCallTool → Map Json → Result Str (Peer × Str)
  unfolding required peer_names
  requested t args = do
    name ← required (as_str (lookup (bytes "peer") args)) (bytes "peer is required")
    message ← required (as_str (lookup (bytes "message") args)) (bytes "message is required")
    peer ← or_fail (lookup name t.by_name) (
        bytes "unknown peer "
        ++ (calls.jws.quoted name ++ (bytes "; available: " ++ join (bytes ", ") (peer_names t))))
    ok (peer, message)

  pub on_checked : Peer → Str → (Option CardError × Map Bool) × W → (ToolResult × Map Bool) × W
  unfolding call_peer card_error_reason peer_error
  on_checked peer message ((some e, verified), w) =
      ((peer_error peer (card_error_reason e), verified), w)
  on_checked peer message ((none, verified), w) =
      let (result, w') = call_peer peer message w in ((result, verified), w')

  pub execute : A2aCallTool → Map Json → Map Bool → W → (ToolResult × Map Bool) × W
  unfolding on_checked check_peer requested
  execute t args verified w = elim (requested t args) [
    | err e ↦ ((errorf e, verified), w)
    | ok asked ↦ on_checked asked.0 asked.1 (check_peer asked.0 verified w)
  ]
