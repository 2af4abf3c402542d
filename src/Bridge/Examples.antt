-- ===== src/Bridge/Examples.antt =====
-- Callers with and without a bar in their names, and one message over an empty store.
use docsclaw.Base.{
  ℕ, Str, bytes, ◌==◌, join, some, List, [], ◌∷◌, true, false, ◌≡◌, ◌≢◌, refl, arith, if◌then◌else◌,
}
use docsclaw.Llm.{Message}
use docsclaw.Session
use docsclaw.Session.{MemoryStore}
use docsclaw.Session.History.{history}
use docsclaw.Auth.Verify.{Claims}
use docsclaw.Bridge.{
  ExecContext, Event, submitted, working, session_key, key_of, extract_text, execute, nonempty,
  first_or_empty,
}
use docsclaw.Bridge.Keys.{HasNoBar, session_key-injective}
use docsclaw.Bridge.Events.{Outcome, execute-Outcome}
use docsclaw.Bridge.Memory.{executor, asked, answered, execute-history}

abbrev caller : Str → Str → Claims
caller subject azp = record {
  subject = subject;
  issuer = [];
  audience = [];
  azp = azp;
  scopes = [];
  expiry = 0;
  raw = [];
}

abbrev bob : Claims
bob = caller (bytes "bob") (bytes "b")

bob-HasNoBar : HasNoBar (bytes "bob")
unfolding bytes
bob-HasNoBar = (λ e. omega (arith, e), (λ e. omega (arith, e), (λ e. omega (arith, e), tt)))

b-HasNoBar : HasNoBar (bytes "b")
unfolding bytes
b-HasNoBar = (λ e. omega (arith, e), tt)

nonempty_text : (s : ℕ) (t : Str) → s ∷ t ≢ []
nonempty_text s t e = cc

abbrev one : Str
one = b'1' ∷ []

session_key-injective_example : (bob.subject ≡ bob.subject) × (bob.azp ≡ bob.azp) × (one ≡ one)
session_key-injective_example =
    session_key-injective bob bob one one bob-HasNoBar b-HasNoBar bob-HasNoBar b-HasNoBar
      (nonempty_text b'1' []) (nonempty_text b'1' []) refl

abbrev context : ExecContext
context = record {
  has_task = false;
  parts = bytes "hello" ∷ [] ∷ bytes "you" ∷ [];
  session_ids = bytes "s" ∷ [];
  claims = some bob;
}

abbrev count_messages : List Message → Str
count_messages [] = []
count_messages (m ∷ ms) = b'i' ∷ count_messages ms

abbrev empty_store : MemoryStore
empty_store = Session.new_memory_store 5

execute-Outcome_example :
    (rest : List Event) × Outcome rest
    × ((execute (executor 3 (bytes "be kind") count_messages) context (λ _. true) empty_store).0
        ≡ submitted ∷ working ∷ rest)
execute-Outcome_example =
    execute-Outcome (executor 3 (bytes "be kind") count_messages) context empty_store

abbrev bobs_key : Str
bobs_key = bytes "bob|b|s"

keyed : key_of context ≡ bobs_key
unfolding key_of first_or_empty session_key bytes ◌==◌
keyed = refl

has_key : bobs_key ≢ []
unfolding bytes
has_key e = cc

text_of : extract_text context.parts ≡ bytes "hello\nyou"
unfolding extract_text nonempty join bytes ◌==◌
text_of = refl

execute-history_example :
    history
      (execute (executor 3 (bytes "be kind") count_messages) context (λ _. true) empty_store).1
      bobs_key
    ≡ (if bobs_key == bobs_key
        then some (
            answered (asked (bytes "be kind") (bytes "hello\nyou") (history empty_store bobs_key)) (
              count_messages
                (asked (bytes "be kind") (bytes "hello\nyou") (history empty_store bobs_key))))
        else history empty_store bobs_key)
execute-history_example =
    execute-history 3 (bytes "be kind") count_messages bobs_key (bytes "hello\nyou") empty_store
      context bobs_key keyed has_key text_of
