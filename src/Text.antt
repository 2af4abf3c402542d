-- ===== src/Text.antt =====
-- What the code uses of Go's packages strings and path, over bytes.
use docsclaw.Base.{
  ℕ, zero, suc, ◌+◌, Str, bytes, ◌==◌, has_prefix, join, Option, none, some, List, [], ◌∷◌, ◌++◌,
  map, reverse, Bool, true, false, ◌&&◌, ◌||◌, eqb, leb, length, if◌then◌else◌,
}

-- The UTF-8 encodings of the runes of unicode.IsSpace.
abbrev space_runes : List Str
space_runes =
    (9 ∷ [])
    ∷ (10 ∷ [])
    ∷ (11 ∷ [])
    ∷ (12 ∷ [])
    ∷ (13 ∷ [])
    ∷ (32 ∷ [])
    ∷ (0xc2 ∷ 0x85 ∷ [])
    ∷ (0xc2 ∷ 0xa0 ∷ [])
    ∷ (0xe1 ∷ 0x9a ∷ 0x80 ∷ [])
    ∷ (0xe2 ∷ 0x80 ∷ 0x80 ∷ [])
    ∷ (0xe2 ∷ 0x80 ∷ 0x81 ∷ [])
    ∷ (0xe2 ∷ 0x80 ∷ 0x82 ∷ [])
    ∷ (0xe2 ∷ 0x80 ∷ 0x83 ∷ [])
    ∷ (0xe2 ∷ 0x80 ∷ 0x84 ∷ [])
    ∷ (0xe2 ∷ 0x80 ∷ 0x85 ∷ [])
    ∷ (0xe2 ∷ 0x80 ∷ 0x86 ∷ [])
    ∷ (0xe2 ∷ 0x80 ∷ 0x87 ∷ [])
    ∷ (0xe2 ∷ 0x80 ∷ 0x88 ∷ [])
    ∷ (0xe2 ∷ 0x80 ∷ 0x89 ∷ [])
    ∷ (0xe2 ∷ 0x80 ∷ 0x8a ∷ [])
    ∷ (0xe2 ∷ 0x80 ∷ 0xa8 ∷ [])
    ∷ (0xe2 ∷ 0x80 ∷ 0xa9 ∷ [])
    ∷ (0xe2 ∷ 0x80 ∷ 0xaf ∷ [])
    ∷ (0xe2 ∷ 0x81 ∷ 0x9f ∷ [])
    ∷ (0xe3 ∷ 0x80 ∷ 0x80 ∷ [])
    ∷ []

-- How many bytes of the head make up one of `runes`, 0 if none does.
match_width : List Str → Str → ℕ
match_width [] s = 0
match_width (r ∷ runes) s = if has_prefix s r then length r else match_width runes s

-- Drops the runes at the head; `k` bytes of the rune in hand are still to be dropped.
drop_runes : List Str → ℕ → Str → Str
drop_runes runes k [] = []
drop_runes runes (suc k) (a ∷ s) = drop_runes runes k s
drop_runes runes zero (a ∷ s) = elim (match_width runes (a ∷ s)) [
  | zero ↦ a ∷ s
  | suc k ↦ drop_runes runes k s
]

-- strings.TrimSpace
unfoldable pub trim_space : Str → Str
unfolding drop_runes match_width has_prefix
trim_space s =
    reverse (drop_runes (map reverse space_runes) zero (reverse (drop_runes space_runes zero s)))

-- strings.Cut at a separator of one byte
unfoldable pub cut : ℕ → Str → Option (Str × Str)
cut sep [] = none
cut sep (a ∷ s) =
    let rest = cut sep s in
    if eqb a sep then some ([], s) else (elim rest [ none ↦ none | some p ↦ some (a ∷ p.0, p.1) ])

-- strings.Split at a separator of one byte; `cur` is the part in hand.
split_from : ℕ → Str → Str → List Str
split_from sep cur [] = cur ∷ []
split_from sep cur (a ∷ s) =
    let closed = split_from sep [] s in
    let longer = split_from sep (cur ++ a ∷ []) s in if eqb a sep then cur ∷ closed else longer

unfoldable pub split : ℕ → Str → List Str
unfolding split_from
split sep s = split_from sep [] s

-- strings.Fields: the maximal runs without white space.
fields_from : ℕ → Str → Str → List Str
fields_from k cur [] = if cur == [] then [] else cur ∷ []
fields_from (suc k) cur (a ∷ s) = fields_from k cur s
fields_from zero cur (a ∷ s) = elim (match_width space_runes (a ∷ s)) [
  | zero ↦ fields_from zero (cur ++ a ∷ []) s
  | suc k ↦ let rest = fields_from k [] s in if cur == [] then rest else cur ∷ rest
]

unfoldable pub fields : Str → List Str
unfolding fields_from match_width has_prefix ◌==◌
fields s = fields_from zero [] s

abbrev pub ascii_lower : ℕ → ℕ
ascii_lower c = if leb 65 c && leb c 90 then c + 32 else c

-- strings.EqualFold against a lower-case ASCII word in which no letter has a non-ASCII fold
-- (only "k" and "s" have one).
unfoldable pub equal_fold : Str → Str → Bool
unfolding ◌==◌
equal_fold s word = map ascii_lower s == word

-- A ".." element of path.Clean.
back : Bool → List Str → List Str
back true [] = []
back false [] = bytes ".." ∷ []
back rooted (top ∷ stack) = if top == bytes ".." then bytes ".." ∷ top ∷ stack else stack

-- One element of path.Clean; the stack has its top at the head.
resolve : Bool → List Str → Str → List Str
resolve rooted stack part =
    if part == [] || part == bytes "."
    then stack
    else if part == bytes ".."
    then back rooted stack
    else part ∷ stack

resolve_all : Bool → List Str → List Str → List Str
resolve_all rooted stack [] = reverse stack
resolve_all rooted stack (part ∷ parts) = resolve_all rooted (resolve rooted stack part) parts

abbrev is_rooted : Str → Bool
is_rooted [] = false
is_rooted (a ∷ s) = eqb a b'/'

-- path.Clean
unfoldable pub clean : Str → Str
unfolding resolve_all resolve back split join ◌==◌ bytes
clean s =
    let parts = join (bytes "/") (resolve_all (is_rooted s) [] (split b'/' s)) in
    if is_rooted s then b'/' ∷ parts else if parts == [] then bytes "." else parts
