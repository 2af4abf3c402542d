-- ===== src/Session/Sqlite/Examples.antt =====
-- One session with a message that carries a tool call, and a driver whose disk is full.
use docsclaw.Base.{Str, bytes, ◌==◌, Option, none, some, List, [], ◌∷◌, ◌≡◌, refl, ok}
use docsclaw.Llm.{Message, ToolCall, text_message}
use docsclaw.Session
use docsclaw.Session.{
  new_memory_store, Call, get_or_create_call, append_call, snapshot_call, reap_call,
}
use docsclaw.Session.History.{history}
use docsclaw.Session.Sqlite.{
  Database, Statement, Codec, insert_message, insert_system, marshalled, unmarshalled, get, apply,
  apply_all, empty_database,
}
use docsclaw.Session.Sqlite.Rows.{IsStorable, working}
use docsclaw.Session.Sqlite.SystemRows.{IsOpened}
use docsclaw.Session.Sqlite.Opened.{opened, called, Reached-IsOpened}
use docsclaw.Session.Sqlite.Agrees.{messages_got, get-apply_all}

abbrev call : ToolCall
call = record { id = bytes "1"; name = bytes "echo"; args = [] }

-- An encoder that knows the one list.
abbrev codec : Codec
codec = record {
  marshal_calls = λ calls. ok (bytes "[1]");
  unmarshal_calls = λ text. ok (call ∷ []);
  marshal_results = λ results. ok (bytes "[]");
  unmarshal_results = λ text. ok [];
  format_time = λ t. [];
  parse_time = λ s. 0;
}

abbrev asking : Message
asking = record {
  role = bytes "assistant";
  content = [];
  tool_calls = call ∷ [];
  tool_results = [];
}

asking-IsStorable : IsStorable codec asking
unfolding marshalled unmarshalled bytes ◌==◌
asking-IsStorable = record {
  calls_text = some (bytes "[1]");
  calls_written = refl;
  calls_read = refl;
  results_text = none;
  results_written = refl;
  results_read = refl;
}

hello-IsStorable : IsStorable codec (text_message (bytes "user") (bytes "hello"))
unfolding marshalled unmarshalled
hello-IsStorable = record {
  calls_text = none;
  calls_written = refl;
  calls_read = refl;
  results_text = none;
  results_written = refl;
  results_read = refl;
}

abbrev calls : List Call
calls =
    get_or_create_call 1 (bytes "a") (bytes "be kind")
    ∷ append_call 2 (bytes "a") (text_message (bytes "user") (bytes "hello"))
    ∷ append_call 2 (bytes "b") (text_message (bytes "user") (bytes "hello"))
    ∷ snapshot_call 3 (bytes "a") asking
    ∷ []

get-apply_all_example :
    messages_got (get codec working (bytes "a") (apply_all codec working 5 calls empty_database))
    ≡ ok (history (Session.apply_all calls (new_memory_store 5)) (bytes "a"))
get-apply_all_example =
    get-apply_all codec 5 calls (bytes "a") tt
      (hello-IsStorable, (hello-IsStorable, (asking-IsStorable, tt)))

-- Every insert of a message fails.
abbrev full_disk : Statement → Option Str
full_disk insert_message = some (bytes "disk full")
full_disk insert_system = some (bytes "disk full")
full_disk _ = none

abbrev after_first : Database
after_first =
    apply codec working 5 (get_or_create_call 1 (bytes "a") (bytes "be kind")) empty_database

abbrev after_second : Database
after_second =
    apply codec full_disk 5 (get_or_create_call 2 (bytes "b") (bytes "be brief")) after_first

Reached-IsOpened_example : IsOpened (apply codec working 5 (reap_call 9) after_second)
Reached-IsOpened_example =
    Reached-IsOpened codec 5 (apply codec working 5 (reap_call 9) after_second) (
      called working (reap_call 9) (
        called full_disk (get_or_create_call 2 (bytes "b") (bytes "be brief"))
          (called working (get_or_create_call 1 (bytes "a") (bytes "be kind")) opened)))
