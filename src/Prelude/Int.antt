-- ===== src/Prelude/Int.antt =====
-- Signed C integers over the native numbers, under the library's names.
-- An `int` or `int64_t` is the number that it stands for; a narrowing cast is written out.
use mathlib.Core.Path.{◌≡◌}
use Prim.Native.Nat.{ℕ, suc, ◌+◌, ◌-◌, ◌%◌, ◌^◌, ◌≤◌, ◌<◌}
use mathlib.Core.Bool.{Bool, true, false}
use native.Mathlib.Omega.{arith}
use ceell.Prelude.Tests.{ltb, leb, if◌then◌else◌}

-- `negsuc n` is -(n + 1).
pub data ℤ : Type 0 where
  pos : ℕ → ℤ
  negsuc : ℕ → ℤ

abbrev pub pos_part : ℤ → ℕ
pos_part (pos n) = n
pos_part (negsuc n) = 0

abbrev pub neg_part : ℤ → ℕ
neg_part (pos n) = 0
neg_part (negsuc n) = suc n

-- a - b, as an integer.
abbrev pub sub_ℕ : ℕ → ℕ → ℤ
sub_ℕ a b = if leb b a then pos (a - b) else negsuc (b - a - 1)

infixl 65 ◌+ℤ◌ ◌-ℤ◌
infix 50 ◌≤ℤ◌ ◌<ℤ◌
abbrev pub ◌+ℤ◌ : ℤ → ℤ → ℤ
a +ℤ b = sub_ℕ (pos_part a + pos_part b) (neg_part a + neg_part b)

abbrev pub ◌-ℤ◌ : ℤ → ℤ → ℤ
a -ℤ b = sub_ℕ (pos_part a + neg_part b) (neg_part a + pos_part b)

abbrev pub ◌≤ℤ◌ : ℤ → ℤ → Type 0
a ≤ℤ b = pos_part a + neg_part b ≤ pos_part b + neg_part a

abbrev pub ◌<ℤ◌ : ℤ → ℤ → Type 0
a <ℤ b = pos_part a + neg_part b < pos_part b + neg_part a

abbrev pub ltb_ℤ : ℤ → ℤ → Bool
ltb_ℤ a b = ltb (pos_part a + neg_part b) (pos_part b + neg_part a)

abbrev pub leb_ℤ : ℤ → ℤ → Bool
leb_ℤ a b = leb (pos_part a + neg_part b) (pos_part b + neg_part a)

abbrev pub is_neg : ℤ → Bool
is_neg (pos n) = false
is_neg (negsuc n) = true

-- The pattern of the lowest bits that `z` has in two's complement: the cast `(uintW_t)z`.
abbrev pub unsigned : ℕ → ℤ → ℕ
unsigned modulus (pos n) = n % modulus
unsigned modulus (negsuc n) = modulus - 1 - n % modulus

-- The casts `(uint16_t)z`, `(uint32_t)z`.
abbrev pub u16 : ℤ → ℕ
u16 z = unsigned (2 ^ 16) z

abbrev pub u32 : ℤ → ℕ
u32 z = unsigned (2 ^ 32) z

-- The `int32_t` with a given bit pattern.
abbrev pub signed32 : ℕ → ℤ
signed32 w = if ltb w (2 ^ 31) then pos w else negsuc (2 ^ 32 - w - 1)

-- The cast `(int32_t)z` of a wider integer.
abbrev pub i32 : ℤ → ℤ
i32 z = signed32 (u32 z)

pub u32-signed32 : (w : ℕ) → w < 2 ^ 32 → u32 (signed32 w) ≡ w
u32-signed32 w h = ground arith

-- The order and the difference agree.
pub sub_pos_iff : (a b : ℤ) → pos 0 ≤ℤ a -ℤ b → b ≤ℤ a
sub_pos_iff a b h = ground arith
