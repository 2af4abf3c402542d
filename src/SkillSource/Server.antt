-- ===== src/SkillSource/Server.antt =====
-- internal/skillpuller/server.go: the handlers that install skills and list them.
use docsclaw.Base.{
  ℕ, Str, bytes, ◌==◌, has_prefix, join, Map, map, lookup, Option, none, some, List, [], ◌∷◌, ◌++◌,
  Bool, true, false, not, ◌&&◌, ◌||◌, if◌then◌else◌, Result, ok, err,
}
use docsclaw.SkillSource.{Skill}

pub record PullRequest : Type 0 where
  pub source : Str
  pub ref : Str
  pub version : Str

pub record PullResponse : Type 0 where
  pub name : Str
  pub source : Str
  pub status : Str
  pub path : Str

-- The body of a response, behind its status.
pub data Body : Type 0 where
  error_response : Str → Body
  pull_response : PullResponse → Body
  list_response : List Str → Body

-- The interface `Source`, with the version as its option.
abbrev pub Source : Type 0 → Type 0
Source W = Str → Str → W → Result Str Skill × W

pub record DirEntry : Type 0 where
  pub name : Str
  pub is_dir : Bool

-- Packages path/filepath and os, and the JSON decoder behind http.MaxBytesReader of so many bytes;
-- `map_order` is the order in which a Go map is walked, and an error of `read_dir` is `none` where the
-- directory is not there.
pub record Disk (W : Type 0) : Type 0 where
  pub decode : ℕ → Str → Result Str PullRequest
  pub map_order : List Str → List Str
  pub base : Str → Str
  pub clean : Str → Str
  pub join_path : Str → Str → Str
  pub mkdir_all : Str → W → Option Str × W
  pub create_temp : Str → W → Result Str Str × W
  pub write_temp : Str → Str → W → Option Str × W
  pub close_temp : Str → W → Option Str × W
  pub chmod : Str → W → Option Str × W
  pub rename : Str → Str → W → Option Str × W
  pub remove : Str → W → W
  pub read_dir : Str → W → Result (Option Str) (List DirEntry)
  pub stat : Str → W → Option Str

module _ {W : Type 0} (disk : Disk W) (skills_dir : Str) where
  -- What follows a step that may fail: the end with status 500, and what is undone then.
  checked : Option Str × W → (W → W) → Str → (W → (ℕ × Body) × W) → (ℕ × Body) × W
  checked (some e, w) undo message next = ((500, error_response message), undo w)
  checked (none, w) undo message next = next w

  pulled : PullRequest → Skill → ℕ × Body
  pulled req skill = (
    200,
    pull_response (record {
      name = skill.name;
      source = req.source;
      status = bytes "ok";
      path = skill.name ++ bytes "/SKILL.md";
    }),
  )

  -- The temporary file is removed wherever a later step fails.
  install_temp : PullRequest → Skill → Str → Str → W → (ℕ × Body) × W
  unfolding checked pulled
  install_temp req skill dir tmp w =
      let drop_temp = disk.remove tmp in
      let failed = bytes "failed to write skill file" in
      checked (disk.write_temp tmp skill.content w) (λ w1. drop_temp (disk.close_temp tmp w1).1)
        failed
        (λ w1. checked (disk.close_temp tmp w1) drop_temp failed (λ w2.
          checked (disk.chmod tmp w2) drop_temp (bytes "failed to set file permissions") (λ w3.
            checked (disk.rename tmp (disk.join_path dir (bytes "SKILL.md")) w3) drop_temp
              (bytes "failed to install skill file") (λ w4. (pulled req skill, w4)))))

  install : PullRequest → Skill → Str → W → (ℕ × Body) × W
  unfolding checked install_temp
  install req skill dir w =
      checked (disk.mkdir_all dir w) (λ w1. w1) (bytes "failed to create skill directory")
        (λ w1.
          let (made, w2) = disk.create_temp dir w1 in
          elim made [
            | err _ ↦ ((500, error_response (bytes "failed to create temp file")), w2)
            | ok tmp ↦ install_temp req skill dir tmp w2
          ])

  -- The name is one segment as it stands, and the directory lies in that of the skills.
  pub is_safe_name : Str → Bool
  is_safe_name name =
      let clean_name = disk.base (disk.clean name) in
      not (
        clean_name == bytes "."
        || clean_name == bytes ".."
        || clean_name == []
        || not (clean_name == name))
      && has_prefix (disk.join_path skills_dir clean_name) (disk.clean skills_dir ++ bytes "/")

  on_skill : PullRequest → Result Str Skill × W → (ℕ × Body) × W
  unfolding install is_safe_name
  on_skill req (err e, w) = ((502, error_response e), w)
  on_skill req (ok skill, w) =
      if is_safe_name skill.name
      then install req skill (disk.join_path skills_dir (disk.base (disk.clean skill.name))) w
      else ((400, error_response (bytes "skill name contains invalid characters")), w)

  unknown_source : Map (Source W) → Str → Str
  unknown_source sources name =
      bytes "unknown source "
      ++ (name
          ++ (bytes ", supported: "
              ++ join (bytes ", ") (disk.map_order (map (λ entry. entry.0) sources))))

  requested : Map (Source W) → (Str → Str) → PullRequest → W → (ℕ × Body) × W
  unfolding on_skill unknown_source
  requested sources quoted req w =
      if req.source == [] || req.ref == []
      then ((400, error_response (bytes "source and ref are required")), w)
      else elim (lookup req.source sources) [
        | none ↦ ((400, error_response (unknown_source sources (quoted req.source))), w)
        | some pull ↦ on_skill req (pull req.ref req.version w)
      ]

  -- 2^20 bytes of a request are read; `limit` is that number, and `quoted` is %q.
  pub handle_pull : ℕ → Map (Source W) → (Str → Str) → Str → W → (ℕ × Body) × W
  unfolding requested
  handle_pull limit sources quoted body w = elim (disk.decode limit body) [
    | err e ↦ ((400, error_response (bytes "invalid JSON: " ++ e)), w)
    | ok req ↦ requested sources quoted req w
  ]

  has_skill : W → DirEntry → Bool
  has_skill w entry =
      if entry.is_dir
      then elim (disk.stat
          (disk.join_path (disk.join_path skills_dir entry.name) (bytes "SKILL.md")) w) [
            | none ↦ true
            | some _ ↦ false
          ]
      else false

  skill_names : W → List DirEntry → List Str
  unfolding has_skill
  skill_names w [] = []
  skill_names w (entry ∷ entries) =
      let rest = skill_names w entries in if has_skill w entry then entry.name ∷ rest else rest

  pub handle_list : W → ℕ × Body
  unfolding skill_names
  handle_list w = elim (disk.read_dir skills_dir w) [
    | err none ↦ (200, list_response [])
    | err (some _) ↦ (500, error_response (bytes "failed to read skills directory"))
    | ok entries ↦ (200, list_response (skill_names w entries))
  ]
