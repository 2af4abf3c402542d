-- ===== src/Utf8/Examples.antt =====
-- A text with a rune of two bytes and a stray byte.
use docsclaw.Base.{Str, [], ◌∷◌, ◌≡◌, refl}
use docsclaw.Utf8.{truncate_runes}

abbrev mixed : Str
mixed = b'a' ∷ 0xc3 ∷ 0xa9 ∷ 0xff ∷ b'b' ∷ []

cut_behind_two : truncate_runes mixed 2 ≡ b'a' ∷ 0xc3 ∷ 0xa9 ∷ []
unfolding truncate_runes
cut_behind_two = refl
