-- ===== src/Base/Strings.antt =====
-- Go strings: sequences of bytes, with the operations of package strings that the code calls.
use Prim.Native.Nat.{ℕ, zero, suc, ◌+◌, ◌<◌, ◌/◌, ◌%◌}
use Prim.Native.Char.{code}
use Prim.Native.String.{String}
use mathlib.Core.Path.{◌≡◌, refl, ap₂, subst}
use mathlib.Core.Logic.{◌↔◌, inl, inr}
use mathlib.Core.Bool.{Bool, true, false, ◌&&◌}
use mathlib.Core.Option.{Option, none, some}
use mathlib.Core.List.{List, [], ◌∷◌, ◌++◌, reverse}
use native.Mathlib.Omega.{arith}
use docsclaw.Base.Tests.{Bool-cases, eqb, eqb_iff, ltb, if◌then◌else◌}

abbrev pub Str : Type 0
Str = List ℕ

-- The bytes of an ASCII literal.
unfoldable pub bytes : String → Str
bytes String.[] = []
bytes (String.◌∷◌ c s) = code c ∷ bytes s

infix 50 ◌==◌
unfoldable pub ◌==◌ : Str → Str → Bool
[] == [] = true
(a ∷ s) == (b ∷ t) = eqb a b && s == t
_ == _ = false

eq_sound : (s t : Str) → (s == t) ≡ true → s ≡ t
unfolding ◌==◌
eq_sound [] [] h = refl
eq_sound (a ∷ s) (b ∷ t) h =
    ap₂ (λ x l. x ∷ l) ((eqb_iff a b).0 (ground arith)) (eq_sound s t (ground arith))
eq_sound _ _ h = absurd (cc)

pub eq_refl : (s : Str) → (s == s) ≡ true
unfolding ◌==◌
eq_refl [] = refl
eq_refl (a ∷ s) = ground (arith, eq_refl s)

pub eq_iff : (s t : Str) → ((s == t) ≡ true) ↔ (s ≡ t)
eq_iff s t = (eq_sound s t, λ e. subst (λ u. (s == u) ≡ true) e (eq_refl s))

-- strings.HasPrefix and strings.TrimPrefix in one: the rest behind the prefix.
unfoldable pub strip_prefix : Str → Str → Option Str
strip_prefix [] s = some s
strip_prefix (a ∷ p) [] = none
strip_prefix (a ∷ p) (b ∷ s) = let rest = strip_prefix p s in if eqb a b then rest else none

unfoldable pub has_prefix : Str → Str → Bool
has_prefix s [] = true
has_prefix [] (a ∷ p) = false
has_prefix (b ∷ s) (a ∷ p) = eqb a b && has_prefix s p

unfoldable pub has_suffix : Str → Str → Bool
unfolding has_prefix
has_suffix s p = has_prefix (reverse s) (reverse p)

pub has_prefix-append : (p s : Str) → has_prefix (p ++ s) p ≡ true
unfolding has_prefix
has_prefix-append [] s = refl
has_prefix-append (a ∷ p) s = ground (arith, has_prefix-append p s)

pub has_prefix-eq : (s p : Str) → has_prefix s p ≡ true → (r : Str) × (s ≡ p ++ r)
unfolding has_prefix
has_prefix-eq s [] h = (s, refl)
has_prefix-eq [] (a ∷ p) h = absurd (cc)
has_prefix-eq (b ∷ s) (a ∷ p) h =
    let (r, e) = has_prefix-eq s p (ground arith) in (r, ground (arith, e))

-- strings.Join
unfoldable pub join : Str → List Str → Str
join sep [] = []
join sep (s ∷ []) = s
join sep (s ∷ t ∷ ts) = s ++ (sep ++ join sep (t ∷ ts))

-- fmt's %d of a number that is not negative.
decimal_from : ℕ → ℕ → Str
decimal_from zero n = []
decimal_from (suc fuel) n =
    let front = decimal_from fuel (n / 10) in (if ltb n 10 then [] else front) ++ (48 + n % 10) ∷ []

unfoldable pub decimal : ℕ → Str
unfolding decimal_from
decimal n = decimal_from (suc n) n

decimal_from_enough : (f g n : ℕ) → n < f → n < g → decimal_from f n ≡ decimal_from g n
unfolding decimal_from
decimal_from_enough zero g n h k = absurd (omega arith)
decimal_from_enough (suc f) zero n h k = absurd (omega arith)
decimal_from_enough (suc f) (suc g) n h k = elim (Bool-cases (ltb n 10)) [
  | inl e ↦ rw e
  | inr e ↦ rw (e, decimal_from_enough f g (n / 10) (ground arith) (ground arith))
]

-- The fuel of `decimal` is enough: it satisfies the recursion of the decimal notation.
pub decimal_lem :
    (n : ℕ) → decimal n ≡ (if ltb n 10 then [] else decimal (n / 10)) ++ (48 + n % 10) ∷ []
unfolding decimal decimal_from
decimal_lem n = elim (Bool-cases (ltb n 10)) [
  | inl e ↦ rw e
  | inr e ↦ rw (e, decimal_from_enough n (suc (n / 10)) (n / 10) (ground arith) (omega arith))
]

-- The texts one behind the other.
abbrev pub concat : List Str → Str
concat [] = []
concat (s ∷ ss) = s ++ concat ss
