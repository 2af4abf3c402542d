-- ===== src/Skills/Loader/Content.antt =====
-- pkg/skills/loader.go, LoadContent: a skill's text by its name.
use docsclaw.Base.{
  Str, bytes, ◌==◌, Option, none, some, ◌++◌, not, ◌&&◌, if◌then◌else◌, Result, ok, err,
}
use docsclaw.Skills.Loader.{
  Entry, Entries, file, dir, broken, nil, cons, is_hidden, slash, base, valid_name,
}

-- The first path, as the walk goes, of a SKILL.md whose directory has the name; `parent` is the name
-- of the directory in hand.
first_of : Option Str → Option Str → Option Str
first_of none later = later
first_of (some path) later = some path

mutual
  unfolding first_of

  find_in : Str → Str → Str → Entry → Option Str
  find_in name parent path (file n content) =
      if n == bytes "SKILL.md" && parent == name then some (slash path n) else none
  find_in name parent path (dir n inner) =
      let found = find_all name n (slash path n) inner in if is_hidden n then none else found
  find_in name parent path (broken n) = none

  find_all : Str → Str → Str → Entries → Option Str
  find_all name parent path nil = none
  find_all name parent path (cons e es) =
      let later = find_all name parent path es in first_of (find_in name parent path e) later

shown : Str → Str → Str
shown name text = bytes "=== SKILL: " ++ (name ++ (bytes " ===\n" ++ text))

-- The skills directory, a clean path, has these entries, `none` where it cannot be walked;
-- `read_file` is os.ReadFile and `quoted` is %q.
module _ (read_file : Str → Result Str Str) (quoted : Str → Str) where
  searched : Str → Option Str → Result Str Str
  unfolding shown
  searched name none = err (bytes "skill '" ++ (name ++ bytes "' not found"))
  searched name (some path) = elim (read_file path) [
    | err e ↦ err (bytes "skill '" ++ (name ++ (bytes "': " ++ e)))
    | ok text ↦ ok (shown name text)
  ]

  find_skill : Str → Str → Option Entries → Option Str
  unfolding find_all
  find_skill skills_dir name none = none
  find_skill skills_dir name (some entries) =
      let found = find_all name (base skills_dir) skills_dir entries in
      if is_hidden (base skills_dir) then none else found

  pub load_content : Str → Option Entries → Str → Result Str Str
  unfolding searched shown find_skill
  load_content skills_dir entries name =
      if not (valid_name name)
      then err (bytes "invalid skill name: " ++ quoted name)
      else elim (read_file (slash (slash skills_dir name) (bytes "SKILL.md"))) [
        | ok text ↦ ok (shown name text)
        | err _ ↦ searched name (find_skill skills_dir name entries)
      ]
