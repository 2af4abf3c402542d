-- ===== src/AgentContext/Budget.antt =====
-- loader.go: the limits on what is injected into the prompt.
use docsclaw.Base.{
  ℕ, ◌+◌, ◌-◌, ◌≤◌, Str, Option, List, [], ◌∷◌, arith, leb, ltb, All, Bool-cases, Option-cases, inl,
  inr,
}
use docsclaw.Utf8.{rune_count}
use docsclaw.Utf8.Runes.{rune_count-truncate_runes}
use docsclaw.AgentContext.{Profile, Loader, Section, limited, fitted, readable, collect, sections}

rune_count-limited : (content : Str) (n : ℕ) → rune_count (limited content n) ≤ n
unfolding limited
rune_count-limited content n =
    let cut = (rune_count-truncate_runes content n).0 in
    elim (Bool-cases (ltb n (rune_count content))) [
      | inl e ↦ rw e (omega (arith, cut))
      | inr e ↦ rw e (ground (arith, e))
    ]

limited-le : (content : Str) (n : ℕ) → rune_count (limited content n) ≤ rune_count content
unfolding limited
limited-le content n =
    let cut = (rune_count-truncate_runes content n).0 in
    elim (Bool-cases (ltb n (rune_count content))) [
      | inl e ↦ rw e (omega (arith, cut))
      | inr e ↦ rw e (omega arith)
    ]

-- The characters of all sections.
pub total_runes : List Section → ℕ
total_runes [] = 0
total_runes (s ∷ ss) = rune_count s.content + total_runes ss

module _ (l : Loader) (read : Str → Option Str) where
  fitted-within :
      (total : ℕ) (content : Str)
      → (rune_count (fitted l total content) ≤ l.max_per_file_chars)
        × (rune_count (fitted l total content) ≤ l.max_total_chars - total)
  unfolding fitted
  fitted-within total content =
      let once = limited content l.max_per_file_chars in
      (
        omega (
          arith,
          limited-le once (l.max_total_chars - total),
          rune_count-limited content l.max_per_file_chars,
        ),
        rune_count-limited once (l.max_total_chars - total),
      )

  collect-within :
      (total : ℕ) (names : List Str)
      → total ≤ l.max_total_chars
      → All (λ s. rune_count s.content ≤ l.max_per_file_chars) (collect l read total names)
        × (total + total_runes (collect l read total names) ≤ l.max_total_chars)
  unfolding collect total_runes
  collect-within total [] h = (tt, omega arith)
  collect-within total (name ∷ names) h = elim (Bool-cases (leb l.max_total_chars total)) [
    | inl full ↦ rw full (tt, omega arith)
    | inr room ↦ elim (Option-cases (readable l read name)) [
      | inl skip ↦ rw (room, skip) (collect-within total names h)
      | inr (content, found) ↦
          let (per_file, remaining) = fitted-within total content in
          let count = rune_count (fitted l total content) in
          let (each, sum) = collect-within (total + count) names (omega (arith, remaining)) in
          rw (room, found) ((per_file, each), omega (arith, sum))
    ]
  ]

  -- Whatever the files hold, each section has at most the characters that one file may have, and all
  -- of them together at most the total limit.
  pub sections-within :
      (p : Profile)
      → All (λ s. rune_count s.content ≤ l.max_per_file_chars) (sections l read p)
        × (total_runes (sections l read p) ≤ l.max_total_chars)
  unfolding sections
  sections-within p =
      let (each, sum) = collect-within 0 p.files (omega arith) in (each, omega (arith, sum))
