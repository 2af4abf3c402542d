-- ===== src/Utf8.antt =====
-- UTF-8 as package unicode/utf8 decodes it: the width of the rune at the head of a string.
pub mod Runes
pub mod Examples
use docsclaw.Base.{
  ℕ, zero, suc, ◌+◌, ◌-◌, Str, List, [], ◌∷◌, Bool, true, false, ◌&&◌, eqb, leb, ltb, if◌then◌else◌,
}

abbrev within : ℕ → ℕ → ℕ → Bool
within lo hi b = leb lo b && leb b hi

-- The length that a lead byte announces, 0 for a byte that leads nothing.
announced : ℕ → ℕ
announced a =
    if within 0xc2 0xdf a
    then 2
    else if within 0xe0 0xef a
    then 3
    else if within 0xf0 0xf4 a
    then 4
    else 0

second_fits : ℕ → ℕ → Bool
second_fits a b =
    if eqb a 0xe0
    then within 0xa0 0xbf b
    else if eqb a 0xed
    then within 0x80 0x9f b
    else if eqb a 0xf0
    then within 0x90 0xbf b
    else if eqb a 0xf4
    then within 0x80 0x8f b
    else within 0x80 0xbf b

continues : ℕ → Str → Bool
continues zero s = true
continues (suc n) [] = false
continues (suc n) (b ∷ s) = within 0x80 0xbf b && continues n s

multi_width : ℕ → Str → ℕ
multi_width a [] = 0
multi_width a (b ∷ s) =
    if leb 2 (announced a) && (second_fits a b && continues (announced a - 2) s)
    then announced a
    else 0

-- The bytes of the valid rune at the head, 0 if the head is no valid encoding.
valid_width : Str → ℕ
unfolding multi_width announced second_fits continues
valid_width [] = 0
valid_width (a ∷ s) = if ltb a 0x80 then 1 else multi_width a s

-- strings.ToValidUTF8(s, ""): `k` bytes of the rune in hand are still to be copied.
valid_from : ℕ → Str → Str
valid_from k [] = []
valid_from (suc k) (a ∷ s) = a ∷ valid_from k s
valid_from zero (a ∷ s) = elim (valid_width (a ∷ s)) [
  | zero ↦ valid_from zero s
  | suc k ↦ a ∷ valid_from k s
]

pub to_valid : Str → Str
unfolding valid_from valid_width
to_valid s = valid_from zero s

-- utf8.RuneCountInString: an invalid byte counts as one rune. `k` bytes of the rune in hand are
-- still to be passed over.
count_from : ℕ → Str → ℕ
count_from k [] = 0
count_from (suc k) (a ∷ s) = count_from k s
count_from zero (a ∷ s) = 1 + count_from (valid_width (a ∷ s) - 1) s

pub rune_count : Str → ℕ
unfolding count_from valid_width
rune_count s = count_from zero s

-- The loop of `truncateRunes`, `for i := range s`: at each rune's first byte the counter is tested.
truncate_from : ℕ → ℕ → ℕ → Str → Str
truncate_from n runes k [] = []
truncate_from n runes (suc k) (a ∷ s) = a ∷ truncate_from n runes k s
truncate_from n runes zero (a ∷ s) =
    let rest = truncate_from n (runes + 1) (valid_width (a ∷ s) - 1) s in
    if leb n runes then [] else a ∷ rest

pub truncate_runes : Str → ℕ → Str
unfolding truncate_from valid_width
truncate_runes s n = truncate_from n 0 zero s
