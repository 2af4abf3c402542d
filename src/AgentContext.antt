-- ===== src/AgentContext.antt =====
-- pkg/agentcontext: workspace profiles (profile.go) and the project-context block (loader.go).
pub mod Budget
pub mod Examples
use docsclaw.Base.{
  ℕ, ◌+◌, ◌-◌, String, Str, bytes, ◌==◌, has_suffix, join, Option, none, some, List, [], ◌∷◌, ◌++◌,
  map, Bool, true, false, ltb, leb, take, length, if◌then◌else◌,
}
use docsclaw.Text.{trim_space}
use docsclaw.Utf8.{rune_count, truncate_runes}

pub record Profile : Type 0 where
  pub name : Str
  pub files : List Str

profile : String → List String → Profile
profile name files = record { name = bytes name; files = map bytes files }

docsclaw_profile : Profile
unfolding profile
docsclaw_profile =
    profile "docsclaw" ("AGENTS.md" ∷ "SOUL.md" ∷ "USER.md" ∷ "IDENTITY.md" ∷ "TOOLS.md" ∷ [])

openclaw_profile : Profile
unfolding profile
openclaw_profile =
    profile "openclaw"
      ("AGENTS.md" ∷ "SOUL.md" ∷ "USER.md" ∷ "MEMORY.md" ∷ "IDENTITY.md" ∷ "TOOLS.md" ∷ [])

hermes_profile : Profile
unfolding profile
hermes_profile = profile "hermes" ("AGENTS.md" ∷ "SOUL.md" ∷ "USER.md" ∷ "MEMORY.md" ∷ [])

pub resolve_profile : Str → Profile × Bool
resolve_profile name =
    if name == []
    then (docsclaw_profile, false)
    else if name == bytes "docsclaw"
    then (docsclaw_profile, true)
    else if name == bytes "openclaw"
    then (openclaw_profile, true)
    else if name == bytes "hermes"
    then (hermes_profile, true)
    else (docsclaw_profile, false)

-- The limits, which a negative value would put out of use.
pub record Loader : Type 0 where
  pub max_per_file_chars : ℕ
  pub max_total_chars : ℕ

pub new_loader : Loader
new_loader = record { max_per_file_chars = 20_000; max_total_chars = 60_000 }

-- A file that is taken up, with its text as it is injected.
pub record Section : Type 0 where
  pub name : Str
  pub content : Str

-- strings.TrimSuffix(name, ".md")
header_of : Str → Str
header_of name = if has_suffix name (bytes ".md") then take (length name - 3) name else name

rendered : Section → Str
unfolding header_of
rendered s = bytes "### " ++ (header_of s.name ++ 10 ∷ s.content)

-- `if runeCount > n { content = truncateRunes(content, n) }`
limited : Str → ℕ → Str
limited content n = if ltb n (rune_count content) then truncate_runes content n else content

module _ (l : Loader) where
  -- the text of one file within the limits, `total` characters being used already
  fitted : ℕ → Str → Str
  unfolding limited
  fitted total content = limited (limited content l.max_per_file_chars) (l.max_total_chars - total)

  -- `read` is os.ReadFile in the workspace, `none` where it gives an error.
  module _ (read : Str → Option Str) where
    -- the text of a file that is not skipped
    readable : Str → Option Str
    readable name = elim (read name) [
      | none ↦ none
      | some content ↦ if trim_space content == [] then none else some (trim_space content)
    ]

    -- the loop over the profile's files
    collect : ℕ → List Str → List Section
    collect total [] = []
    collect total (name ∷ names) =
        let rest = collect total names in
        if leb l.max_total_chars total then [] else elim (readable name) [
          | none ↦ rest
          | some content ↦
              record { name = name; content = fitted total content }
              ∷ collect (total + rune_count (fitted total content)) names
        ]

    pub sections : Profile → List Section
    unfolding collect readable fitted limited
    sections p = collect 0 p.files

    pub load : Profile → Str
    unfolding rendered
    load p = elim (sections p) [
      | [] ↦ []
      | s ∷ ss ↦
          10
          ∷ 10
          ∷ (bytes "## Project Context" ++ (10 ∷ 10 ∷ join (10 ∷ 10 ∷ []) (map rendered (s ∷ ss))))
    ]
