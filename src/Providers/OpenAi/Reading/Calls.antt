-- ===== src/Providers/OpenAi/Reading/Calls.antt =====
-- openai.go, the loop over the lines: the calls that it puts together from the deltas.
use docsclaw.Base.{
  ℕ, zero, suc, ◌+◌, Str, ◌==◌, eq_iff, none, some, List, [], ◌∷◌, ◌++◌, ◌≡◌, ◌⊎◌, refl, ap, arith,
  inl, inr, if◌then◌else◌, ℤ, pos, int_eq, length, get_elem?, set,
}
use docsclaw.Providers.OpenAi.Wire.{ToolDelta}
use docsclaw.Providers.OpenAi.Reading.{
  PendingCall, no_call, find_call, put_call, extend_call, add_delta, add_deltas,
}

abbrev pub opened : ToolDelta → PendingCall
opened d = record { id = d.id; name = d.name; args_json = d.arguments }

abbrev pub extended : ToolDelta → PendingCall → PendingCall
extended d c = record { id = c.id; name = c.name; args_json = c.args_json ++ d.arguments }

-- How a server cuts calls into deltas: the deltas lead from the calls sent so far to all calls. A
-- delta opens the call with the next index, or it brings more arguments of one that is open, with no
-- id and name or with the same again.
pub data IsSent : List PendingCall → List ToolDelta → List PendingCall → Type 0 where
  all_sent : {cs : List PendingCall} → IsSent cs [] cs
  opens :
      {cs all : List PendingCall} {d : ToolDelta} {deltas : List ToolDelta}
      → d.index ≡ pos (length cs)
      → IsSent (cs ++ opened d ∷ []) deltas all
      → IsSent cs (d ∷ deltas) all
  extends :
      {cs all : List PendingCall} {d : ToolDelta} {deltas : List ToolDelta} {i : ℕ}
      {c : PendingCall}
      → d.index ≡ pos i
      → get_elem? cs i ≡ some c
      → (d.id ≡ []) ⊎ (d.id ≡ c.id)
      → (d.name ≡ []) ⊎ (d.name ≡ c.name)
      → IsSent (set cs i (extended d c)) deltas all
      → IsSent cs (d ∷ deltas) all

-- The map of the code that holds the calls under their indices, from `k` on.
pub keyed : ℕ → List PendingCall → List (ℤ × PendingCall)
keyed k [] = []
keyed k (c ∷ cs) = (pos k, c) ∷ keyed (suc k) cs

pub length-keyed : (k : ℕ) (cs : List PendingCall) → length (keyed k cs) ≡ length cs
unfolding keyed
length-keyed k [] = refl
length-keyed k (c ∷ cs) = ap suc (length-keyed (suc k) cs)

pub find_call-keyed :
    (k i n : ℕ) (cs : List PendingCall)
    → n ≡ k + i
    → find_call (pos n) (keyed k cs) ≡ get_elem? cs i
unfolding find_call keyed int_eq
find_call-keyed k i n [] e = refl
find_call-keyed k zero n (c ∷ cs) e = ground arith
find_call-keyed k (suc i) n (c ∷ cs) e =
    let later = find_call-keyed (suc k) i n cs (omega arith) in ground (arith, later)

put_call-keyed :
    (k i n : ℕ) (cs : List PendingCall) (c old : PendingCall)
    → n ≡ k + i
    → get_elem? cs i ≡ some old
    → put_call (pos n) c (keyed k cs) ≡ keyed k (set cs i c)
unfolding put_call keyed int_eq
put_call-keyed k i n [] c old e h = absurd (cc)
put_call-keyed k zero n (x ∷ cs) c old e h = ground arith
put_call-keyed k (suc i) n (x ∷ cs) c old e h =
    let later = put_call-keyed (suc k) i n cs c old (omega arith) h in ground (arith, later)

put_call-keyed_next :
    (k n : ℕ) (cs : List PendingCall) (c : PendingCall)
    → n ≡ k + length cs
    → put_call (pos n) c (keyed k cs) ≡ keyed k (cs ++ c ∷ [])
unfolding put_call keyed int_eq
put_call-keyed_next k n [] c e = ground arith
put_call-keyed_next k n (x ∷ cs) c e =
    let later = put_call-keyed_next (suc k) n cs c (omega arith) in ground (arith, later)

get_elem?-length : (cs : List PendingCall) → get_elem? cs (length cs) ≡ none
get_elem?-length [] = refl
get_elem?-length (c ∷ cs) = get_elem?-length cs

extend_call-no_call : (d : ToolDelta) → extend_call d no_call ≡ opened d
unfolding extend_call
extend_call-no_call d = ground (arith, eq_iff d.id [], eq_iff d.name [])

-- A text that is empty or the same again changes nothing.
kept : (new old : Str) → (new ≡ []) ⊎ (new ≡ old) → (if new == [] then old else new) ≡ old
kept new old (inl e) = ground (arith, (eq_iff new []).1 e)
kept new old (inr e) = ground (arith, e)

extend_call-extended :
    (d : ToolDelta) (c : PendingCall)
    → (d.id ≡ []) ⊎ (d.id ≡ c.id)
    → (d.name ≡ []) ⊎ (d.name ≡ c.name)
    → extend_call d c ≡ extended d c
unfolding extend_call
extend_call-extended d c e f = rw (kept d.id c.id e, kept d.name c.name f)

add_delta-opens :
    (d : ToolDelta) (cs : List PendingCall)
    → d.index ≡ pos (length cs)
    → add_delta d (keyed 0 cs) ≡ keyed 0 (cs ++ opened d ∷ [])
unfolding add_delta
add_delta-opens d cs e =
    rw
      (
        e,
        find_call-keyed 0 (length cs) (length cs) cs (omega arith),
        get_elem?-length cs,
        extend_call-no_call d,
      )
      (put_call-keyed_next 0 (length cs) cs (opened d) (omega arith))

add_delta-extends :
    (d : ToolDelta) (cs : List PendingCall) (i : ℕ) (c : PendingCall)
    → d.index ≡ pos i
    → get_elem? cs i ≡ some c
    → extend_call d c ≡ extended d c
    → add_delta d (keyed 0 cs) ≡ keyed 0 (set cs i (extended d c))
unfolding add_delta
add_delta-extends d cs i c e f g =
    rw (e, find_call-keyed 0 i i cs (omega arith), f, g)
      (put_call-keyed 0 i i cs (extended d c) c (omega arith) f)

-- The loop over the deltas puts the calls together that the server has cut.
add_deltas-IsSent :
    {cs all : List PendingCall} {deltas : List ToolDelta}
    → IsSent cs deltas all
    → add_deltas deltas (keyed 0 cs) ≡ keyed 0 all
unfolding add_deltas
add_deltas-IsSent all_sent = refl
add_deltas-IsSent (opens {cs = cs} {d = d} e more) =
    rw (add_delta-opens d cs e) (add_deltas-IsSent more)
add_deltas-IsSent (extends {cs = cs} {d = d} {i = i} {c = c} e f g h more) =
    rw (add_delta-extends d cs i c e f (extend_call-extended d c g h)) (add_deltas-IsSent more)

pub add_deltas-IsSent_start :
    {all : List PendingCall} {deltas : List ToolDelta}
    → IsSent [] deltas all
    → add_deltas deltas [] ≡ keyed 0 all
unfolding keyed
add_deltas-IsSent_start sent = add_deltas-IsSent sent

pub add_deltas-append :
    (front back : List ToolDelta) (calls : List (ℤ × PendingCall))
    → add_deltas (front ++ back) calls ≡ add_deltas back (add_deltas front calls)
unfolding add_deltas
add_deltas-append [] back calls = refl
add_deltas-append (d ∷ front) back calls = add_deltas-append front back (add_delta d calls)
