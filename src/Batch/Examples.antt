-- ===== src/Batch/Examples.antt =====
-- Five documents over two agents, and the theorem on them.
use docsclaw.Base.{ℕ, ◌<◌, min, Str, bytes, some, List, [], ◌∷◌, ◌≡◌, refl, arith, length, All}
use docsclaw.Batch.{split_from, split_documents}
use docsclaw.Batch.Split.{joined, IsEven, split_documents-IsEven}

abbrev docs : List Str
docs = bytes "a" ∷ bytes "b" ∷ bytes "c" ∷ bytes "d" ∷ bytes "e" ∷ []

three_and_two :
    split_documents docs 2
    ≡ some ((bytes "a" ∷ bytes "b" ∷ bytes "c" ∷ []) ∷ (bytes "d" ∷ bytes "e" ∷ []) ∷ [])
unfolding split_documents split_from
three_and_two = refl

split_documents-IsEven_example :
    (batches : List (List Str)) × (size : ℕ) × (split_documents docs 2 ≡ some batches)
    × (joined batches ≡ docs)
    × (length batches ≡ min 2 (length docs))
    × (0 < size)
    × All (IsEven size) batches
split_documents-IsEven_example = split_documents-IsEven docs 2 (omega arith) (λ e. absurd (cc e))
