-- ===== src/Skills/Loader.antt =====
-- pkg/skills/loader.go: SKILL.md files, found under the skills directory and loaded by name.
pub mod SkillNames
pub mod Content
pub mod Examples
use docsclaw.Base.{
  ℕ, Str, bytes, ◌==◌, has_prefix, strip_prefix, or_else, Option, none, some, List, [], ◌∷◌, ◌++◌,
  reverse, Bool, true, false, not, ◌&&◌, ◌||◌, eqb, drop, concat, map, if◌then◌else◌, Result, ok,
  err,
}
use docsclaw.Text.{trim_space, split}

pub record SkillMeta : Type 0 where
  pub name : Str
  pub description : Str
  pub dir : Str

-- strings.Index, as the text in front of the first occurrence
before : Str → Str → Option Str
before p [] = if p == [] then some [] else none
before p (a ∷ s) =
    let later = before p s in
    if has_prefix (a ∷ s) p
    then some []
    else (elim later [ none ↦ none | some front ↦ some (a ∷ front) ])

-- The value of a field after a line; a later line of the same field wins.
field_after : Str → Str → Str → Str
field_after label line old = elim (strip_prefix label line) [
  | none ↦ old
  | some value ↦ trim_space value
]

read_lines : SkillMeta → List Str → SkillMeta
read_lines meta [] = meta
read_lines meta (line ∷ lines) =
    read_lines
      (record meta {
        name = field_after (bytes "name:") (trim_space line) meta.name;
        description = field_after (bytes "description:") (trim_space line) meta.description;
      })
      lines

named : SkillMeta → Result Str SkillMeta
named meta = if meta.name == [] then err (bytes "skill has no name") else ok meta

abbrev fence : Str
fence = bytes "---"

-- `ParseFrontmatter` behind the read of the file
pub parse_frontmatter : Str → Result Str SkillMeta
unfolding before read_lines field_after named
parse_frontmatter content =
    if not (has_prefix content fence)
    then err (bytes "no frontmatter found")
    else elim (before fence (drop 3 content)) [
      | none ↦ err (bytes "unclosed frontmatter")
      | some frontmatter ↦
          named
            (read_lines (record { name = []; description = []; dir = [] }) (split 10 frontmatter))
    ]

-- A directory tree as filepath.WalkDir goes through it: entries in their order, each a file with
-- its content, a directory, or one that cannot be accessed.
mutual
  pub data Entry : Type 0 where
    file : Str → Str → Entry
    dir : Str → Entries → Entry
    broken : Str → Entry

  pub data Entries : Type 0 where
    nil : Entries
    cons : Entry → Entries → Entries

-- Kubernetes mounts keep their data in directories whose names begin with "..".
pub is_hidden : Str → Bool
is_hidden name = has_prefix name (bytes "..")

-- the content of a file among the entries of one directory
pub sibling : Str → Entries → Option Str
sibling name nil = none
sibling name (cons (file n content) es) = if n == name then some content else sibling name es
sibling name (cons (dir n inner) es) = sibling name es
sibling name (cons (broken n) es) = sibling name es

abbrev pub slash : Str → Str → Str
slash path name = path ++ b'/' ∷ name

module _ (description_in : Str → Option Str) where
  -- The description of a skill.yaml that parses and has one wins; `description_in` is the parser
  -- with the field, which is empty if it is missing.
  pub described : Option Str → SkillMeta → SkillMeta
  described none meta = meta
  described (some yaml) meta = elim (description_in yaml) [
    | none ↦ meta
    | some text ↦ if text == [] then meta else record meta { description = text }
  ]

  -- what the walk adds for one SKILL.md
  pub skill_in : Str → Option Str → Str → List SkillMeta
  skill_in path yaml content = elim (parse_frontmatter content) [
    | err e ↦ []
    | ok meta ↦ described yaml (record meta { dir = path }) ∷ []
  ]

  mutual
    pub walk : Str → Option Str → Entry → List SkillMeta
    walk path yaml (file name content) =
        if name == bytes "SKILL.md" then skill_in path yaml content else []
    walk path yaml (dir name inner) =
        let found = walk_all (slash path name) (sibling (bytes "skill.yaml") inner) inner in
        if is_hidden name then [] else found
    walk path yaml (broken name) = []

    pub walk_all : Str → Option Str → Entries → List SkillMeta
    walk_all path yaml nil = []
    walk_all path yaml (cons e es) = walk path yaml e ++ walk_all path yaml es

  -- `skillsDir` is a directory with these entries, `none` where there is none; its own name is not
  -- hidden.
  unfoldable pub discover : Str → Option Entries → List SkillMeta
  discover path none = []
  discover path (some entries) = walk_all path (sibling (bytes "skill.yaml") entries) entries

-- filepath.Base without the trailing separators
drop_slashes : Str → Str
drop_slashes [] = []
drop_slashes (c ∷ s) = let rest = drop_slashes s in if eqb c b'/' then rest else c ∷ s

-- what stands behind the last separator
last_element : Str → Str → Str
last_element cur [] = cur
last_element cur (c ∷ s) = last_element (if eqb c b'/' then [] else cur ++ c ∷ []) s

pub base : Str → Str
unfolding drop_slashes last_element
base [] = bytes "."
base (c ∷ s) =
    let stripped = reverse (drop_slashes (reverse (c ∷ s))) in
    if stripped == [] then bytes "/" else last_element [] stripped

-- the test of `LoadContent`
pub valid_name : Str → Bool
valid_name name =
    not (name == [] || not (name == base name) || name == bytes "." || name == bytes "..")

pub build_summary : List SkillMeta → Str
build_summary [] = []
build_summary (s ∷ skills) =
    (10 ∷ bytes "Available skills (call load_skill to get full instructions):")
    ++ (10
        ∷ concat (
            map
              (λ (m : SkillMeta).
                bytes "  - " ++ (m.name ++ (bytes ": " ++ (m.description ++ 10 ∷ []))))
              (s ∷ skills)))
