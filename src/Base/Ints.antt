-- ===== src/Base/Ints.antt =====
-- Go's int where a value may be negative.
use Prim.Native.Nat.{ℕ}
use mathlib.Core.Path.{◌≡◌, refl, ap}
use mathlib.Core.Logic.{◌↔◌}
use mathlib.Core.Bool.{Bool, true, false}
use docsclaw.Base.Tests.{eqb, eqb_iff}

-- `negsuc n` is -(n + 1).
pub data ℤ : Type 0 where
  pos : ℕ → ℤ
  negsuc : ℕ → ℤ

unfoldable pub int_eq : ℤ → ℤ → Bool
int_eq (pos m) (pos n) = eqb m n
int_eq (negsuc m) (negsuc n) = eqb m n
int_eq _ _ = false

int_eq_sound : (i j : ℤ) → int_eq i j ≡ true → i ≡ j
unfolding int_eq
int_eq_sound (pos m) (pos n) h = ap pos ((eqb_iff m n).0 h)
int_eq_sound (negsuc m) (negsuc n) h = ap negsuc ((eqb_iff m n).0 h)
int_eq_sound (pos m) (negsuc n) h = absurd (cc)
int_eq_sound (negsuc m) (pos n) h = absurd (cc)

int_eq_complete : (i j : ℤ) → i ≡ j → int_eq i j ≡ true
unfolding int_eq
int_eq_complete i j e = rw (e) (same j)
  where
    same : (j : ℤ) → int_eq j j ≡ true
    same (pos n) = (eqb_iff n n).1 refl
    same (negsuc n) = (eqb_iff n n).1 refl

pub int_eq_iff : (i j : ℤ) → (int_eq i j ≡ true) ↔ (i ≡ j)
int_eq_iff i j = (int_eq_sound i j, int_eq_complete i j)
