-- ===== src/FetchTools/Exec.antt =====
-- exec.go: the tool exec.
use docsclaw.Base.{
  ℕ, Str, bytes, ◌==◌, decimal, take, length, ltb, eqb, any, Map, lookup, Option, none, some, List,
  [], ◌∷◌, ◌++◌, Bool, true, false, if◌then◌else◌,
}
use docsclaw.Json.{Json, as_str}
use docsclaw.Tools.{ToolResult, errorf}

-- A negative number of either would act as it is; both are natural numbers.
pub record ExecConfig : Type 0 where
  pub timeout : ℕ
  pub max_output : ℕ

abbrev pub default_exec_config : ExecConfig
default_exec_config = record { timeout = 30; max_output = 50000 }

pub new_exec_tool : ExecConfig → ExecConfig
new_exec_tool cfg = record {
  timeout = if eqb cfg.timeout 0 then 30 else cfg.timeout;
  max_output = if eqb cfg.max_output 0 then 50000 else cfg.max_output;
}

-- The patterns as package regexp reads them.
abbrev pub deny_patterns : List Str
deny_patterns =
    bytes "\\brm\\s+(-\\w*\\s+)*-r"
    ∷ bytes "\\brm\\s+(-\\w*\\s+)*-f"
    ∷ bytes "\\bsudo\\b"
    ∷ bytes "\\bdd\\b.*\\bof=/dev/"
    ∷ bytes "\\bmkfs\\b"
    ∷ bytes "\\bgit\\s+push\\b"
    ∷ bytes "\\bgit\\s+reset\\s+--hard\\b"
    ∷ bytes "\\bdocker\\s+run\\b"
    ∷ bytes "\\bdocker\\s+exec\\b"
    ∷ bytes "\\bpodman\\s+run\\b"
    ∷ bytes "\\bkubectl\\s+delete\\b"
    ∷ bytes "\\boc\\s+delete\\b"
    ∷ bytes "\\bcurl\\b.*\\|\\s*(ba)?sh"
    ∷ bytes "\\bwget\\b.*\\|\\s*(ba)?sh"
    ∷ bytes "\\bchmod\\s+[0-7]*777\\b"
    ∷ bytes "\\bchown\\b"
    ∷ bytes "\\beval\\b"
    ∷ bytes ":\\(\\)\\{.*\\}:"
    ∷ bytes "\\b/dev/sd[a-z]\\b"
    ∷ bytes "\\bshutdown\\b"
    ∷ bytes "\\breboot\\b"
    ∷ bytes "\\bhalt\\b"
    ∷ bytes "\\bpoweroff\\b"
    ∷ bytes ">\\s*/etc/"
    ∷ bytes "\\bssh\\b"
    ∷ bytes "\\bnc\\s+-l"
    ∷ []

-- What a command comes to: its output, its error, and whether the deadline has passed.
pub record Ran : Type 0 where
  pub output : Str
  pub run_err : Option Str
  pub deadline_exceeded : Bool

-- Package regexp, and `sh -c` under a timeout in seconds.
pub record Shell (W : Type 0) : Type 0 where
  pub matches : Str → Str → Bool
  pub run : ℕ → Str → W → Ran × W

pub truncated : ℕ → Str → Str
truncated limit output =
    if ltb limit (length output) then take limit output ++ bytes "\n...(truncated)" else output

on_ran : ExecConfig → Str → Ran → ToolResult
unfolding truncated
on_ran cfg command ran =
    let result = truncated cfg.max_output ran.output in
    elim (ran.run_err) [
      | none ↦ record { output = result; error = false }
      | some e ↦
          if ran.deadline_exceeded
          then errorf (
              bytes "Command timed out after " ++ (decimal cfg.timeout ++ (bytes "s: " ++ command)))
          else record { output = result ++ (bytes "\nExit error: " ++ e); error = true }
    ]

module _ {W : Type 0} (shell : Shell W) (cfg : ExecConfig) where
  pub is_denied : Str → Bool
  is_denied command = any (λ pattern. shell.matches pattern command) deny_patterns

  run_command : Str → W → ToolResult × W
  unfolding on_ran is_denied
  run_command command w =
      if command == []
      then (errorf (bytes "command is required"), w)
      else if is_denied command
      then (errorf (bytes "Command blocked by security policy: " ++ command), w)
      else let (ran, w') = shell.run cfg.timeout command w in (on_ran cfg command ran, w')

  pub execute : Map Json → W → ToolResult × W
  unfolding run_command
  execute args w = elim (as_str (lookup (bytes "command") args)) [
    | none ↦ (errorf (bytes "command is required"), w)
    | some command ↦ run_command command w
  ]
