-- ===== src/AgentContext/Examples.antt =====
-- Two files, of which the second is cut by the total limit.
use docsclaw.Base.{Str, bytes, ◌==◌, ◌≤◌, Option, none, some, All, if◌then◌else◌}
use docsclaw.Utf8.{rune_count}
use docsclaw.AgentContext.{Loader, sections, resolve_profile}
use docsclaw.AgentContext.Budget.{total_runes, sections-within}

abbrev small : Loader
small = record { max_per_file_chars = 4; max_total_chars = 6 }

abbrev files : Str → Option Str
files name =
    if name == bytes "SOUL.md"
    then some (bytes "  gentle")
    else if name == bytes "TOOLS.md"
    then some (bytes "exec")
    else none

sections-within_example :
    All
      (λ s. rune_count s.content ≤ small.max_per_file_chars)
      (sections small files (resolve_profile (bytes "docsclaw")).0)
    × (total_runes (sections small files (resolve_profile (bytes "docsclaw")).0)
        ≤ small.max_total_chars)
sections-within_example = sections-within small files (resolve_profile (bytes "docsclaw")).0
