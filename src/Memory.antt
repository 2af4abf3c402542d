-- ===== src/Memory.antt =====
-- pkg/memory/memory.go and internal/memorytool/remember.go: the memory file and the tool that appends
-- to it.
pub mod Appends
pub mod Examples
use docsclaw.Base.{
  ℕ, Str, bytes, ◌==◌, Map, lookup, Option, none, some, or_else, List, [], ◌∷◌, ◌++◌, Bool, true,
  false, eqb, if◌then◌else◌, Result, ok, err,
}
use docsclaw.Json.{Json, as_str}
use docsclaw.Text.{trim_space}
use docsclaw.Tools.{ToolResult, errorf}

-- What reading a file gives.
pub data Contents : Type 0 where
  contents : Str → Contents
  missing : Contents
  unreadable : Str → Contents

-- Packages os, path/filepath and time. `open_append` opens with O_APPEND, O_CREATE, O_WRONLY and
-- the mode 0600; `last_byte` is a Seek to one byte in front of the end and a Read of it, `none` where
-- either fails.
pub record Disk (W H : Type 0) : Type 0 where
  pub read_file : Str → W → Contents
  pub dir : Str → Str
  pub mkdir_all : Str → W → Option Str × W
  pub open_append : Str → W → Result Str H × W
  pub chmod : Str → W → Option Str × W
  pub last_byte : H → W → Option ℕ
  pub now : W → Str
  pub write : H → Str → W → Option Str × W
  pub close : H → W → Option Str × W

-- The interface `Store`; an error is its text.
pub record Store (W : Type 0) : Type 0 where
  pub load : W → Result Str Str
  pub remember : Str → W → Option Str × W

-- A newline in front where the file's last byte is known to be none.
prefix : Option ℕ → Str
prefix none = []
prefix (some b) = if eqb b 10 then [] else bytes "\n"

pub section_text : Option ℕ → Str → Str → Str
unfolding prefix
section_text last now entry =
    prefix last ++ (bytes "## " ++ (now ++ (bytes "\n\n" ++ (entry ++ bytes "\n\n"))))

pub wrapped : Str → Option Str → Option Str
wrapped text none = none
wrapped text (some e) = some (text ++ e)

module _ {W H : Type 0} (disk : Disk W H) (path : Str) where
  pub load : W → Result Str Str
  load w = elim (disk.read_file path w) [
    | contents text ↦ ok text
    | missing ↦ ok []
    | unreadable e ↦ err (bytes "read memory file: " ++ e)
  ]

  -- from the chmod of the open file to the write
  pub write_entry : H → Str → W → Option Str × W
  unfolding section_text wrapped
  write_entry f entry w =
      let (failed, w') = disk.chmod path w in
      elim failed [
        | some e ↦ (some (bytes "chmod memory file: " ++ e), w')
        | none ↦
            (let (write_err, w'') =
                disk.write f (section_text (disk.last_byte f w') (disk.now w') entry) w' in
              (wrapped (bytes "write memory file: ") write_err, w''))
      ]

  -- the deferred Close, whose error shows only where there is no other
  pub close_file : H → Option Str × W → Option Str × W
  unfolding wrapped
  close_file f (failed, w) =
      let (close_err, w') = disk.close f w in
      (elim failed [ some e ↦ some e | none ↦ wrapped (bytes "close memory file: ") close_err ], w')

  pub append_entry : Str → W → Option Str × W
  unfolding write_entry close_file
  append_entry entry w =
      let (opened, w') = disk.open_append path w in
      elim opened [
        | err e ↦ (some (bytes "open memory file: " ++ e), w')
        | ok f ↦ close_file f (write_entry f entry w')
      ]

  pub remember : Str → W → Option Str × W
  unfolding append_entry
  remember text w =
      let entry = trim_space text in
      if entry == []
      then (none, w)
      else (let (failed, w') = disk.mkdir_all (disk.dir path) w in
          elim failed [
            | some e ↦ (some (bytes "create memory directory: " ++ e), w')
            | none ↦ append_entry entry w'
          ])

  -- `FileStore` as a `Store`
  pub file_store : Store W
  unfolding load remember
  file_store = record { load = load; remember = remember }

module _ {W : Type 0} (store : Store W) where
  recorded : Option Str × W → ToolResult × W
  recorded (some e, w) = (errorf (bytes "failed to remember: " ++ e), w)
  recorded (none, w) = (record { output = bytes "Recorded in long-term memory."; error = false }, w)

  -- Execute of the tool remember.
  pub execute : Map Json → W → ToolResult × W
  unfolding recorded
  execute args w =
      let entry = or_else (as_str (lookup (bytes "entry") args)) [] in
      if trim_space entry == []
      then (errorf (bytes "entry is required"), w)
      else recorded (store.remember entry w)
