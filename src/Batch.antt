-- ===== src/Batch.antt =====
-- internal/cmd/batch.go: documents spread over agents, and the ranked report.
pub mod Split
pub mod Examples
use docsclaw.Base.{
  ℕ, zero, suc, ◌+◌, ◌-◌, ◌/◌, ◌%◌, min, Str, bytes, join, decimal, ℤ, pos, negsuc, Option, none,
  some, List, [], ◌∷◌, ◌++◌, length, take, drop, replicate, get_elem?, set, ltb, leb, eqb,
  if◌then◌else◌, Result, ok, err,
}
use docsclaw.Text.{trim_space}

pub record Candidate : Type 0 where
  pub document_id : Str
  pub candidate_name : Str
  pub score : ℤ
  pub strengths : Str
  pub weaknesses : Str
  pub recommendation : Str

-- The regular expression's first group, and json.Unmarshal into a list or into one.
pub record Parser : Type 0 where
  pub json_block : Str → Option Str
  pub unmarshal_list : Str → Result Str (List Candidate)
  pub unmarshal_one : Str → Result Str Candidate

pub parse_batch_result : Parser → Str → Result Str (List Candidate)
parse_batch_result parser text =
    let json = trim_space (elim (parser.json_block text) [ none ↦ text | some block ↦ block ]) in
    elim (parser.unmarshal_list json) [
      | ok results ↦ ok results
      | err e ↦ elim (parser.unmarshal_one json) [
        | ok single ↦ ok (single ∷ [])
        | err _ ↦ err (bytes "failed to parse results: " ++ e)
      ]
    ]

-- Package encoding/csv, whose Flush is deferred, and sort.Slice by falling score.
pub record Report (W : Type 0) : Type 0 where
  pub sort : List Candidate → List Candidate
  pub write : List Str → W → Option Str × W
  pub write_error : W → Option Str
  pub flush : W → W

-- strconv.Itoa
itoa : ℤ → Str
itoa (pos n) = decimal n
itoa (negsuc n) = bytes "-" ++ decimal (suc n)

row_of : ℕ → Candidate → List Str
unfolding itoa
row_of rank r =
    decimal rank
    ∷ r.document_id
    ∷ r.candidate_name
    ∷ itoa r.score
    ∷ r.strengths
    ∷ r.weaknesses
    ∷ r.recommendation
    ∷ []

module _ {W : Type 0} (report : Report W) where
  write_rows : ℕ → List Candidate → W → Option Str × W
  unfolding row_of
  write_rows rank [] w = (report.write_error w, w)
  write_rows rank (r ∷ results) w =
      let (failed, w') = report.write (row_of rank r) w in
      elim failed [ some e ↦ (some e, w') | none ↦ write_rows (rank + 1) results w' ]

  write_report : List Candidate → W → Option Str × W
  unfolding write_rows
  write_report results w =
      let header =
        bytes "rank"
        ∷ bytes "document_id"
        ∷ bytes "candidate_name"
        ∷ bytes "score"
        ∷ bytes "strengths"
        ∷ bytes "weaknesses"
        ∷ bytes "recommendation"
        ∷ [] in
      let (failed, w') = report.write header w in
      elim failed [ some e ↦ (some e, w') | none ↦ write_rows 1 (report.sort results) w' ]

  pub format_csv : List Candidate → W → Option Str × W
  unfolding write_report
  format_csv results w = let (failed, w') = write_report results w in (failed, report.flush w')

-- The slices of the batches from the one with index `i` on, `n` of them.
pub split_from : ℕ → ℕ → ℕ → ℕ → List Str → List (List Str)
split_from size remainder i zero docs = []
split_from size remainder i (suc n) docs =
    let this = if ltb i remainder then suc size else size in
    take this docs ∷ split_from size remainder (i + 1) n (drop this docs)

-- `none` is the panic of a division by zero, for documents without agents.
pub split_documents : List Str → ℕ → Option (List (List Str))
unfolding split_from
split_documents [] agents = some []
split_documents (doc ∷ docs) zero = none
split_documents (doc ∷ docs) (suc n) =
    let len = suc (length docs) in
    let count = min (suc n) len in
    some (split_from (len / count) (len % count) 0 count (doc ∷ docs))

pub record BatchConfig : Type 0 where
  pub agents : List Str
  pub documents : List Str
  pub context_doc : Str
  pub prompt : Str

pub record BatchStats : Type 0 where
  pub processed : ℕ
  pub failed : ℤ
  pub agents : ℕ

-- How an agent is asked, and the order in which the goroutines run, each taken as one step.
pub record Workers (W : Type 0) : Type 0 where
  pub invoke : Str → Str → List Str → Str → W → Result Str Str × W
  pub schedule : W → ℕ → List ℕ

-- The text that `newA2AInvoker` sends.
pub batch_message : Str → List Str → Str → Str
batch_message context_doc docs prompt =
    prompt
    ++ (bytes "\n\nContext document: "
        ++ (context_doc ++ (bytes "\nDocuments to evaluate: " ++ join (bytes ", ") docs)))

-- The loop over the workers' results: those that did not fail, in the order of the agents.
collect : List (Result Str (List Candidate)) → List Candidate
collect [] = []
collect (err e ∷ results) = collect results
collect (ok found ∷ results) = found ++ collect results

-- m - n, which may be negative
minus : ℕ → ℕ → ℤ
minus m n = if leb n m then pos (m - n) else negsuc (n - m - 1)

module _ {W : Type 0} (workers : Workers W) (parser : Parser) (report : Report W)
    (cfg : BatchConfig) where
  answer : Result Str Str → Result Str (List Candidate)
  answer (err e) = err e
  answer (ok text) = elim (parse_batch_result parser text) [
    | err e ↦ err (bytes "parse error: " ++ e)
    | ok found ↦ ok found
  ]

  -- The goroutine of batch `i` writes its slot. An agent out of range would panic; there is none,
  -- as there are at most as many batches as agents.
  run_worker :
      List (List Str)
      → ℕ
      → List (Result Str (List Candidate))
      → W
      → List (Result Str (List Candidate)) × W
  unfolding answer
  run_worker batches i results w = elim (get_elem? batches i) [
    | none ↦ (results, w)
    | some docs ↦ elim (get_elem? cfg.agents i) [
      | none ↦ (results, w)
      | some agent ↦
          let (text, w') = workers.invoke agent cfg.context_doc docs cfg.prompt w in
          (set results i (answer text), w')
    ]
  ]

  run_workers :
      List (List Str)
      → List ℕ
      → List (Result Str (List Candidate))
      → W
      → List (Result Str (List Candidate)) × W
  unfolding run_worker
  run_workers batches [] results w = (results, w)
  run_workers batches (i ∷ order) results w =
      let (results', w') = run_worker batches i results w in run_workers batches order results' w'

  -- behind the workers; the time is left out
  finish : ℕ → List Candidate → W → (BatchStats × Option Str) × W
  unfolding minus
  finish count found w =
      let stats : BatchStats = record {
        processed = length found;
        failed = minus (length cfg.documents) (length found);
        agents = count;
      } in
      if ltb 0 (length found)
      then (let (failed, w') = format_csv report found w in
          (
            (stats, elim failed [ none ↦ none | some e ↦ some (bytes "CSV output error: " ++ e) ]),
            w',
          ))
      else ((stats, none), w)

  -- `none` is a panic.
  pub run_batch : W → Option ((BatchStats × Option Str) × W)
  unfolding split_documents run_workers collect finish
  run_batch w = elim (split_documents cfg.documents (length cfg.agents)) [
    | none ↦ none
    | some batches ↦
        let count = length batches in
        let (results, w') =
          run_workers batches (workers.schedule w count) (replicate count (ok [])) w in
        some (finish count (collect results) w')
  ]
