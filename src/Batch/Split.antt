-- ===== src/Batch/Split.antt =====
-- batch.go, splitDocuments: every document once, in order, and evenly spread.
use native.Mathlib.Nat.{div-add-mod, mod-lt}
use docsclaw.Base.{
  ℕ, zero, suc, ◌+◌, ◌-◌, ◌*◌, ◌/◌, ◌%◌, ◌≤◌, ◌<◌, min, Str, some, List, [], ◌∷◌, ◌++◌, ◌≡◌, ◌≢◌,
  ◌⊎◌, inl, inr, refl, ap, ◌∙◌, arith, length, take, drop, take-append-drop, length-take, ltb,
  if◌then◌else◌, All, Bool-cases,
}
use docsclaw.Batch.{split_from, split_documents}

length-drop : (n : ℕ) (xs : List Str) → length (drop n xs) ≡ length xs - n
length-drop zero xs = omega arith
length-drop (suc n) [] = omega arith
length-drop (suc n) (x ∷ xs) = omega (arith, length-drop n xs)

-- The batches one behind the other.
pub joined : List (List Str) → List Str
joined [] = []
joined (b ∷ batches) = b ++ joined batches

-- A batch of this size, or one larger.
abbrev pub IsEven : ℕ → List Str → Type 0
IsEven size batch = (length batch ≡ size) ⊎ (length batch ≡ suc size)

-- What is left for `n` batches from the one with index `i` on.
abbrev IsLeft : ℕ → ℕ → ℕ → ℕ → List Str → Type 0
IsLeft size remainder i n docs = (length docs ≡ n * size + (remainder - i)) × (remainder ≤ i + n)

record IsSplit (size : ℕ) (docs : List Str) (n : ℕ) (batches : List (List Str)) : Type 0 where
  count_lem : length batches ≡ n
  joined_lem : joined batches ≡ docs
  even_lem : All (IsEven size) batches

-- The size of the batch with index `i`.
abbrev Fits : ℕ → ℕ → ℕ → ℕ → Type 0
Fits size remainder i this =
    ((this ≡ size) × (remainder ≤ i)) ⊎ ((this ≡ suc size) × (i < remainder))

size-cases :
    (size remainder i : ℕ) → Fits size remainder i (if ltb i remainder then suc size else size)
size-cases size remainder i = elim (Bool-cases (ltb i remainder)) [
  | inl e ↦ rw e (inr (refl, ground (arith, e)))
  | inr e ↦ rw e (inl (refl, ground (arith, e)))
]

IsLeft-drop :
    (size remainder i n this : ℕ) (docs : List Str)
    → Fits size remainder i this
    → IsLeft size remainder i (suc n) docs
    → IsLeft size remainder (i + 1) n (drop this docs)
IsLeft-drop size remainder i n this docs (inl (e, f)) (h, k) =
    (omega (arith, length-drop this docs, e, f, h), omega (arith, k))
IsLeft-drop size remainder i n this docs (inr (e, f)) (h, k) =
    (omega (arith, length-drop this docs, e, f, h), omega (arith, k))

take-IsEven :
    (size remainder i n this : ℕ) (docs : List Str)
    → Fits size remainder i this
    → IsLeft size remainder i (suc n) docs
    → IsEven size (take this docs)
take-IsEven size remainder i n this docs (inl (e, f)) (h, k) =
    inl (omega (arith, length-take this docs, e, f, h))
take-IsEven size remainder i n this docs (inr (e, f)) (h, k) =
    inr (omega (arith, length-take this docs, e, f, h))

split_from-IsSplit :
    (size remainder i n : ℕ) (docs : List Str)
    → IsLeft size remainder i n docs
    → IsSplit size docs n (split_from size remainder i n docs)
unfolding split_from joined
split_from-IsSplit size remainder i zero [] h = record {
  count_lem = refl;
  joined_lem = refl;
  even_lem = tt;
}
split_from-IsSplit size remainder i zero (d ∷ docs) h = absurd (omega (arith, h.0, h.1))
split_from-IsSplit size remainder i (suc n) docs h =
    let this = if ltb i remainder then suc size else size in
    let fits = size-cases size remainder i in
    let rest =
      split_from-IsSplit size remainder (i + 1) n (drop this docs)
        (IsLeft-drop size remainder i n this docs fits h) in
    record {
      count_lem = ap suc rest.count_lem;
      joined_lem = ap (λ l. take this docs ++ l) rest.joined_lem ∙ take-append-drop this docs;
      even_lem = (take-IsEven size remainder i n this docs fits h, rest.even_lem);
    }

whole_IsLeft : (len count q r : ℕ) → count * q + r ≡ len → len ≡ count * q + (r - 0)
whole_IsLeft len count q r e = omega (arith, e)

positive : (len count q r : ℕ) → count * q + r ≡ len → r < count → count ≤ len → 0 < q
positive len count zero r e h k = absurd (omega (arith, e, h, k))
positive len count (suc q) r e h k = omega arith

-- For documents and at least one agent, the batches hold every document once and in order, there is
-- one for each agent that can get a document, and their sizes differ by at most one; none is empty.
pub split_documents-IsEven :
    (docs : List Str) (agents : ℕ)
    → 0 < agents
    → docs ≢ []
    → (batches : List (List Str)) × (size : ℕ) × (split_documents docs agents ≡ some batches)
      × (joined batches ≡ docs)
      × (length batches ≡ min agents (length docs))
      × (0 < size)
      × All (IsEven size) batches
unfolding split_documents
split_documents-IsEven [] agents h full = absurd (full refl)
split_documents-IsEven (doc ∷ docs) zero h full = absurd (omega arith)
split_documents-IsEven (doc ∷ docs) (suc n) h full =
    let len = suc (length docs) in
    let count = min (suc n) len in
    let some_batch : 0 < count = omega arith in
    let whole = div-add-mod len count in
    let small = mod-lt len some_batch in
    let split =
      split_from-IsSplit (len / count) (len % count) 0 count (doc ∷ docs)
        (whole_IsLeft len count _ _ whole, omega (arith, small)) in
    (
      split_from (len / count) (len % count) 0 count (doc ∷ docs),
      len / count,
      refl,
      split.joined_lem,
      split.count_lem,
      positive len count _ _ whole small (omega arith),
      split.even_lem,
    )
