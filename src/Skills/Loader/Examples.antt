-- ===== src/Skills/Loader/Examples.antt =====
-- A skill's name that may be loaded, and a file that parses.
use docsclaw.Base.{bytes, ◌==◌, ◌≡◌, true, refl}
use docsclaw.Skills.Loader.{valid_name, base}

summarize_valid : valid_name (bytes "summarize") ≡ true
unfolding valid_name base bytes ◌==◌
summarize_valid = refl
