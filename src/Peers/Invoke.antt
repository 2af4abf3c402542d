-- ===== src/Peers/Invoke.antt =====
-- internal/bridge/client.go: the A2A client.
use docsclaw.Base.{
  ℕ, Str, bytes, ◌==◌, join, Option, none, some, List, [], ◌∷◌, ◌++◌, ◌||◌, if◌then◌else◌, Result,
  ok, err,
}

-- The card of a request is read by nobody.
pub record InvokeRequest : Type 0 where
  pub agent_url : Str
  pub document_id : Str
  pub message_text : Str
  pub session_id : Str

pub record InvokeResult : Type 0 where
  pub text : Str
  pub state : Str

-- The one part of the message that is sent.
pub data Payload : Type 0 where
  text_part document_part : Str → Payload

-- The SDK's answer; parts are their texts, empty for a part that is no text.
pub record Task : Type 0 where
  pub state : Str
  pub status_message : Option (List Str)
  pub artifacts : List (List Str)

pub data SendResult : Type 0 where
  task_result : Task → SendResult
  message_result : List Str → SendResult
  other_result : (type_name : Str) → SendResult

-- The client could not be made, or it sent the message; the statuses and bodies of the HTTP responses
-- pass through the transport.
pub data Dispatch : Type 0 where
  not_created : Str → Dispatch
  dispatched : List (ℕ × Str) → Result Str SendResult → Dispatch

-- The A2A SDK: two of its states, and sending to a URL with the headers that the code adds. The
-- headers of the trace are of its own.
pub record A2aSdk (W : Type 0) : Type 0 where
  pub state_failed : Str
  pub state_rejected : Str
  pub send : Str → Payload → List (Str × Str) → W → Dispatch × W

nonempty : List Str → List Str
nonempty [] = []
nonempty (t ∷ texts) = let rest = nonempty texts in if t == [] then rest else t ∷ rest

pub extract_text_from_parts : List Str → Str
unfolding nonempty
extract_text_from_parts parts = join (bytes "\n") (nonempty parts)

-- the text of the first artifact that has one
artifact_text : List (List Str) → Str
artifact_text [] = []
artifact_text (parts ∷ artifacts) =
    let rest = artifact_text artifacts in
    let text = extract_text_from_parts parts in if text == [] then rest else text

message_text_of : Option (List Str) → Str
message_text_of none = []
message_text_of (some parts) = extract_text_from_parts parts

module _ {W : Type 0} (sdk : A2aSdk W) where
  pub parse_task : Task → InvokeResult
  unfolding artifact_text message_text_of extract_text_from_parts
  parse_task task =
      let status = message_text_of task.status_message in
      let artifact = artifact_text task.artifacts in
      if task.state == sdk.state_failed || task.state == sdk.state_rejected
      then record {
        text = if status == [] then bytes "agent returned " ++ task.state else status;
        state = task.state;
      }
      else record { text = if artifact == [] then status else artifact; state = task.state }

  pub parse_result : SendResult → Result Str InvokeResult
  unfolding parse_task
  parse_result (task_result task) = ok (parse_task task)
  parse_result (message_result parts) =
      ok (record { text = extract_text_from_parts parts; state = bytes "completed" })
  parse_result (other_result type_name) = err (bytes "unexpected result type: " ++ type_name)

  answered : Dispatch → Result Str InvokeResult × List (ℕ × Str)
  unfolding parse_result
  answered (not_created e) = (err (bytes "failed to create A2A client: " ++ e), [])
  answered (dispatched responses (err e)) =
      (err (bytes "A2A message/send failed: " ++ e), responses)
  answered (dispatched responses (ok result)) = (parse_result result, responses)

  -- The result, and what the transport saw.
  pub invoke : InvokeRequest → W → (Result Str InvokeResult × List (ℕ × Str)) × W
  unfolding answered
  invoke req w =
      let payload =
        if req.message_text == []
        then document_part req.document_id
        else text_part req.message_text in
      let headers =
        if req.session_id == [] then [] else (bytes "x-session-id", req.session_id) ∷ [] in
      let (sent, w') = sdk.send req.agent_url payload headers w in (answered sent, w')
