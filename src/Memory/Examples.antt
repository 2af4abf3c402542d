-- ===== src/Memory/Examples.antt =====
-- Two entries in a memory file whose first text ends without a newline, and the theorem on them.
use docsclaw.Base.{Str, bytes, ◌==◌, none, [], ◌++◌, ◌≡◌, ◌≢◌, refl, inl, ok}
use docsclaw.Text.{trim_space}
use docsclaw.Memory.{
  Disk, contents, section_text, load, remember, append_entry, write_entry, close_file, wrapped,
}
use docsclaw.Memory.Appends.{IsDisk, load-remember}

-- The world is the file.
abbrev disk : Disk Str (Unit {0})
disk = record {
  read_file = λ _ w. contents w;
  dir = λ _. [];
  mkdir_all = λ _ w. (none, w);
  open_append = λ _ w. (ok tt, w);
  chmod = λ _ w. (none, w);
  last_byte = λ _ _. none;
  now = λ _. bytes "2026";
  write = λ _ s w. (none, w ++ s);
  close = λ _ w. (none, w);
}

is_disk : IsDisk disk (bytes "m") (λ w. w)
is_disk = record {
  reads = λ w. inl refl;
  makes = λ _ w. refl;
  opens = λ w. refl;
  chmods = λ w. refl;
  writes = λ f s w _. refl;
  closes = λ f w. refl;
  blind = λ f w. refl;
}

not_blank : trim_space (bytes "tea") ≢ []
unfolding trim_space bytes
not_blank e = absurd (cc e)

remembered : (remember disk (bytes "m") (bytes "tea") (bytes "old")).0 ≡ none
unfolding remember append_entry write_entry close_file wrapped trim_space bytes ◌==◌
remembered = refl

load-remember_example :
    (old now : Str) × (load disk (bytes "m") (bytes "old") ≡ ok old)
    × (load disk (bytes "m") (remember disk (bytes "m") (bytes "tea") (bytes "old")).1
        ≡ ok (old ++ section_text none now (trim_space (bytes "tea"))))
load-remember_example =
    load-remember disk (bytes "m") (λ w. w) is_disk (bytes "tea") (bytes "old") not_blank remembered
