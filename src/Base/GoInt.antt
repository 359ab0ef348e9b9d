-- ===== src/Base/GoInt.antt =====
-- Go's `int` of 64 bits: sums and differences wrap, and are those of the integers where they fit.
use Prim.Native.Nat.{ℕ, ◌+◌, ◌-◌, ◌<◌, ◌≤◌, ◌%◌}
use mathlib.Core.Path.{◌≡◌, ◌∙◌}
use native.Mathlib.Omega.{arith}
use frankenphp.Base.Tests.{ltb, if◌then◌else◌}
use frankenphp.Base.Int.{ℤ, pos, negsuc, pos_part, neg_part, ◌+ℤ◌, ◌-ℤ◌, +ℤ_parts}

-- 2 ^ 63 and 2 ^ 64.
abbrev pub int_bound : ℕ
int_bound = 9223372036854775808

abbrev pub int_modulus : ℕ
int_modulus = 18446744073709551616

abbrev from_bits : ℕ → ℤ
from_bits b = if ltb b int_bound then pos b else negsuc (int_modulus - 1 - b)

unfoldable pub wrap_int : ℤ → ℤ
wrap_int (pos n) = from_bits (n % int_modulus)
wrap_int (negsuc n) = from_bits (int_modulus - 1 - n % int_modulus)

infixl 65 ◌+int◌ ◌-int◌
unfoldable pub ◌+int◌ : ℤ → ℤ → ℤ
unfolding wrap_int
a +int b = wrap_int (a +ℤ b)

unfoldable pub ◌-int◌ : ℤ → ℤ → ℤ
unfolding wrap_int
a -int b = wrap_int (a -ℤ b)

pub wrap_int_lem : (a : ℤ) → pos_part a + neg_part a < int_bound → wrap_int a ≡ a
unfolding wrap_int
wrap_int_lem (pos n) h = ground arith
wrap_int_lem (negsuc n) h = ground arith

pub +int-+ℤ :
    (a b : ℤ)
    → pos_part a + pos_part b < int_bound
    → neg_part a + neg_part b < int_bound
    → a +int b ≡ a +ℤ b
unfolding ◌+int◌ ◌+ℤ◌
+int-+ℤ a b h k = wrap_int_lem _ (ground arith)

pub -int--ℤ :
    (a b : ℤ)
    → pos_part a + neg_part b < int_bound
    → neg_part a + pos_part b < int_bound
    → a -int b ≡ a -ℤ b
unfolding ◌-int◌ ◌-ℤ◌
-int--ℤ a b h k = wrap_int_lem _ (ground arith)

-- The two parts of a sum that fits.
pub +int_parts :
    (a b : ℤ)
    → pos_part a + pos_part b < int_bound
    → neg_part a + neg_part b < int_bound
    → (pos_part (a +int b) + neg_part a + neg_part b
        ≡ neg_part (a +int b) + pos_part a + pos_part b)
      × (pos_part (a +int b) ≤ pos_part a + pos_part b)
      × (neg_part (a +int b) ≤ neg_part a + neg_part b)
unfolding ◌+ℤ◌
+int_parts a b h k = rw (+int-+ℤ a b h k) (+ℤ_parts a b, ground arith, ground arith)

-- One part of a difference is 0.
pub -ℤ_normal :
    (a b : ℤ)
    → (pos_part (a -ℤ b) ≤ pos_part a + neg_part b) × (neg_part (a -ℤ b) ≤ neg_part a + pos_part b)
unfolding ◌-ℤ◌
-ℤ_normal a b = (ground arith, ground arith)

pub +int-zero : (a : ℤ) → pos_part a + neg_part a < int_bound → a +int pos 0 ≡ a
unfolding ◌+ℤ◌
+int-zero a h = +int-+ℤ a (pos 0) (omega (arith, h)) (omega (arith, h)) ∙ ground arith

pub -int-zero : (a : ℤ) → pos_part a + neg_part a < int_bound → a -int pos 0 ≡ a
unfolding ◌-ℤ◌
-int-zero a h = -int--ℤ a (pos 0) (omega (arith, h)) (omega (arith, h)) ∙ ground arith
