-- ===== src/FileTools/Examples.antt =====
-- A file in the workspace "/w", and one beside it.
use docsclaw.Base.{
  ℕ, ◌+◌, Str, bytes, ◌==◌, has_prefix, lookup, Map, none, some, [], ◌∷◌, ◌≡◌, ◌≢◌, refl, arith, ok,
}
use docsclaw.Json.{Json, str}
use docsclaw.FileTools.{
  Files, argument, resolved, resolved_workspace, is_inside_workspace, refused, write_in, write_file,
  access_denied,
}
use docsclaw.FileTools.Contained.{IsInside, write_file-IsInside}

-- Every path is absolute and no link; the state counts the changes.
abbrev pub files : Files ℕ
files = record {
  abs = λ p. some p;
  eval_symlinks = λ w p. none;
  dir = λ p. bytes "/w";
  base = λ p. bytes "a";
  join = λ p q. p;
  read_file = λ p w. ok (bytes "text");
  mkdir_all = λ p w. (ok tt, w + 1);
  write_file = λ p c w. (ok tt, w + 1);
}

abbrev args_for : Str → Map Json
args_for path = (bytes "path", str path) ∷ (bytes "content", str (bytes "new")) ∷ []

beside : (write_file files (bytes "/w") (args_for (bytes "/weird/a")) 0) ≡ (access_denied files, 0)
unfolding write_file refused is_inside_workspace resolved resolved_workspace has_prefix lookup bytes
    ◌==◌
beside = refl

writes : (write_file files (bytes "/w") (args_for (bytes "/w/a")) 0).1 ≡ 2
unfolding write_file refused is_inside_workspace resolved resolved_workspace write_in has_prefix
    lookup bytes ◌==◌
writes = refl

changes : (write_file files (bytes "/w") (args_for (bytes "/w/a")) 0).1 ≢ 0
changes e = omega (arith, e, writes)

a_workspace : bytes "/w" ≢ []
unfolding bytes
a_workspace e = cc

write_file-IsInside_example :
    IsInside files 0 (argument (bytes "path") (args_for (bytes "/w/a"))) (bytes "/w")
write_file-IsInside_example =
    write_file-IsInside files 0 (bytes "/w") (args_for (bytes "/w/a")) a_workspace changes
