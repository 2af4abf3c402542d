-- ===== src/FileTools.antt =====
-- internal/workspace/workspace.go, internal/readfile/readfile.go, internal/writefile/writefile.go: the
-- tools that read and write files, and the test that keeps them in the workspace.
pub mod Contained
pub mod Examples
use docsclaw.Base.{
  ℕ, suc, ◌+◌, ◌<◌, Str, bytes, ◌==◌, has_prefix, decimal, Map, lookup, or_else, Option, none, some,
  List, [], ◌∷◌, ◌++◌, Bool, true, false, not, ◌&&◌, ◌||◌, ltb, length, take, replicate, ◌-◌,
  if◌then◌else◌, Result, ok, err,
}
use docsclaw.Json.{Json, as_str}
use docsclaw.Text.{split}
use docsclaw.Tools.{ToolResult, errorf}

-- The code that is called: package path/filepath, and package os, whose errors are their texts.
pub record Files (W : Type 0) : Type 0 where
  pub abs : Str → Option Str
  pub eval_symlinks : W → Str → Option Str
  pub dir : Str → Str
  pub base : Str → Str
  pub join : Str → Str → Str
  pub read_file : Str → W → Result Str Str
  pub mkdir_all : Str → W → Result Str (Unit {0}) × W
  pub write_file : Str → Str → W → Result Str (Unit {0}) × W

abbrev done : Str → ToolResult
done output = record { output = output; error = false }

-- `args[name].(string)`, "" where it is missing or no text
abbrev argument : Str → Map Json → Str
argument name args = or_else (as_str (lookup name args)) []

-- `fmt.Fprintf("%4d\t%s\n", …)`
numbered_line : ℕ → Str → Str
numbered_line n line = replicate (4 - length (decimal n)) 32 ++ (decimal n ++ 9 ∷ (line ++ 10 ∷ []))

numbered_from : ℕ → List Str → Str
unfolding numbered_line
numbered_from n [] = []
numbered_from n (line ∷ lines) = numbered_line n line ++ numbered_from (suc n) lines

limited : Str → Str
limited output =
    if ltb 50_000 (length output) then take 50_000 output ++ 10 ∷ bytes "...(truncated)" else output

module _ {W : Type 0} (fs : Files W) where
  -- the absolute path with its links resolved, or those of its directory if it does not exist
  pub resolved : W → Str → Str
  resolved w path = elim (fs.eval_symlinks w path) [
    | some real ↦ real
    | none ↦ elim (fs.eval_symlinks w (fs.dir path)) [
      | some real ↦ fs.join real (fs.base path)
      | none ↦ path
    ]
  ]

  pub resolved_workspace : W → Str → Str
  resolved_workspace w path = or_else (fs.eval_symlinks w path) path

  pub is_inside_workspace : W → Str → Str → Bool
  is_inside_workspace w path workspace = elim (fs.abs path) [
    | none ↦ false
    | some abs_path ↦ elim (fs.abs workspace) [
      | none ↦ false
      | some abs_workspace ↦
          let real_path = resolved w abs_path in
          let real_workspace = resolved_workspace w abs_workspace in
          has_prefix real_path (real_workspace ++ bytes "/") || real_path == real_workspace
    ]
  ]

  -- `workspaceDir != "" && !IsInsideWorkspace(path, workspaceDir)`
  refused : W → Str → Str → Bool
  refused w workspace path = not (workspace == []) && not (is_inside_workspace w path workspace)

  abbrev access_denied : ToolResult
  access_denied = errorf (bytes "Access denied: path outside workspace")

  read_result : Result Str Str → ToolResult
  unfolding numbered_from limited
  read_result (err e) = errorf (bytes "Error reading file: " ++ e)
  read_result (ok content) = done (limited (numbered_from 1 (split 10 content)))

  pub read_file : Str → Map Json → W → ToolResult × W
  unfolding refused read_result
  read_file workspace args w =
      let path = argument (bytes "path") args in
      if path == []
      then (errorf (bytes "path is required"), w)
      else if refused w workspace path
      then (access_denied, w)
      else (read_result (fs.read_file path w), w)

  written : Str → Result Str (Unit {0}) × W → ToolResult × W
  written path (err e, w) = (errorf (bytes "failed to write file: " ++ e), w)
  written path (ok _, w) = (done (bytes "File written successfully: " ++ path), w)

  write_in : Str → Str → Result Str (Unit {0}) × W → ToolResult × W
  unfolding written
  write_in path content (err e, w) = (errorf (bytes "failed to create directory: " ++ e), w)
  write_in path content (ok _, w) = written path (fs.write_file path content w)

  pub write_file : Str → Map Json → W → ToolResult × W
  unfolding refused write_in
  write_file workspace args w =
      let path = argument (bytes "path") args in
      let content = argument (bytes "content") args in
      if path == []
      then (errorf (bytes "path is required"), w)
      else if refused w workspace path
      then (access_denied, w)
      else write_in path content (fs.mkdir_all (fs.dir path) w)
