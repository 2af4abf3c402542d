-- ===== src/SkillSource/GitHub.antt =====
-- internal/skillpuller/source/github.go: a skill from a repository on GitHub.
use docsclaw.Base.{
  ℕ, Str, bytes, ◌==◌, has_suffix, leb, eqb, Option, none, some, List, [], ◌∷◌, ◌++◌, reverse, any,
  join, Bool, false, not, ◌&&◌, ◌||◌, if◌then◌else◌, Result, ok, err, ◌>>◌, fail_if,
}
use docsclaw.Text.{cut, split}
use docsclaw.SkillSource.{Net, Skill, trim_suffix, pull}

-- A byte of `[A-Za-z0-9._-]`.
is_safe : ℕ → Bool
is_safe b =
    (leb 65 b && leb b 90)
    || (leb 97 b && leb b 122)
    || (leb 48 b && leb b 57)
    || eqb b 46
    || eqb b 95
    || eqb b 45

-- `safeSegment`, which matches a whole text of one such byte at least
pub safe_segment : Str → Bool
unfolding is_safe
safe_segment [] = false
safe_segment (b ∷ s) = is_safe b && not (any (λ c. not (is_safe c)) s)

-- The three parts of "owner/repo/path".
parts_of : Str → Option (Str × (Str × Str))
parts_of ref = elim (cut 47 ref) [
  | none ↦ none
  | some (owner, rest) ↦ elim (cut 47 rest) [
    | none ↦ none
    | some (repo, path) ↦ some (owner, (repo, path))
  ]
]

-- "%s/%s/%s/%s/%s"
url_text : Str → Str → Str → Str → Str → Str
url_text base_url owner repo version file_path =
    join (bytes "/") (base_url ∷ owner ∷ repo ∷ version ∷ file_path ∷ [])

module _ {W : Type 0} (net : Net W) where
  -- The segments from the last one on; the first segment has none in front of it.
  in_front : List Str → Option Str
  in_front [] = none
  in_front (p ∷ []) = none
  in_front (p ∷ q ∷ rest) =
      let further = in_front (q ∷ rest) in
      if net.equal_fold p (bytes "SKILL.md") then some q else further

  plain_name : List Str → Str
  unfolding trim_suffix
  plain_name [] = bytes "unknown"
  plain_name (p ∷ rest) = trim_suffix p (bytes ".md")

  pub skill_name_from_path : Str → Str
  unfolding in_front plain_name
  skill_name_from_path p =
      let segments = reverse (split 47 p) in
      elim (in_front segments) [ some name ↦ name | none ↦ plain_name segments ]

  raw_url_of : Str → Str → Str → Str → Str → Result Str (Str × Str)
  unfolding safe_segment skill_name_from_path url_text
  raw_url_of owner repo version file_path base_url = do
    fail_if (not (safe_segment owner)) (bytes "invalid owner " ++ net.quoted owner)
    fail_if (not (safe_segment repo)) (bytes "invalid repo " ++ net.quoted repo)
    fail_if (not (safe_segment version)) (bytes "invalid version " ++ net.quoted version)
    ok (url_text base_url owner repo version file_path, skill_name_from_path file_path)

  -- The URL and the name of the skill.
  pub github_raw_url : Str → Str → Str → Result Str (Str × Str)
  unfolding parts_of raw_url_of
  github_raw_url ref version base_url = elim (parts_of ref) [
    | none ↦ err (bytes "github ref must be owner/repo/path, got " ++ net.quoted ref)
    | some (owner, (repo, path)) ↦
        raw_url_of owner repo (if version == [] then bytes "main" else version)
          (if has_suffix path (bytes "SKILL.md") then path else path ++ bytes "/SKILL.md") base_url
  ]

  renamed : Str → Str → Result Str Skill → Result Str Skill
  renamed ref name (err e) = err (bytes "github pull " ++ (net.quoted ref ++ (bytes ": " ++ e)))
  renamed ref name (ok skill) = ok (record skill { name = name })

  pub github_pull : ℕ → Bool → Str → Str → Str → W → Result Str Skill × W
  unfolding github_raw_url renamed pull
  github_pull limit allow_private base_url ref version w =
      let base = if base_url == [] then bytes "https://raw.githubusercontent.com" else base_url in
      elim (github_raw_url ref version base) [
        | err e ↦ (err e, w)
        | ok (url, name) ↦
            let (found, w') = pull net limit allow_private url w in (renamed ref name found, w')
      ]
