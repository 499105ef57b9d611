-- ===== src/Base/Word.antt =====
-- Machine words as native numbers: casts, shifts, and complements.
use Prim.Native.Nat.{ℕ, ◌+◌, ◌-◌, ◌*◌, ◌/◌, ◌%◌, ◌^◌, bit_and}
use mini_visor.Base.Tests.{◌==◌, leb, ltb, if◌then◌else◌}
use mini_visor.Base.Results.{Outcome, done, panic}

abbrev pub u8 : ℕ → ℕ
u8 n = n % 2 ^ 8

abbrev pub u16 : ℕ → ℕ
u16 n = n % 2 ^ 16

abbrev pub u32 : ℕ → ℕ
u32 n = n % 2 ^ 32

abbrev pub u64 : ℕ → ℕ
u64 n = n % 2 ^ 64

infixl 75 ◌>>>◌ ◌<<<◌
-- `x >> k`, and `x << k` before the cast to the width of its type.
abbrev pub ◌>>>◌ : ℕ → ℕ → ℕ
x >>> k = x / 2 ^ k

abbrev pub ◌<<<◌ : ℕ → ℕ → ℕ
x <<< k = x * 2 ^ k

-- `!x` at a width of `w` bits.
abbrev pub complement : ℕ → ℕ → ℕ
complement w x = 2 ^ w - 1 - x

-- `x & !m` at a width of `w` bits.
abbrev pub clear_bits : ℕ → ℕ → ℕ → ℕ
clear_bits w x m = bit_and x (complement w m)

-- Bit `k` of `x`, as a number and as a test.
abbrev pub bit : ℕ → ℕ → ℕ
bit x k = x / 2 ^ k % 2

-- Checked arithmetic on `usize` and `u64`.
abbrev pub add64 : ℕ → ℕ → Outcome ℕ
add64 a b = if ltb (a + b) (2 ^ 64) then done (a + b) else panic

abbrev pub sub64 : ℕ → ℕ → Outcome ℕ
sub64 a b = if leb b a then done (a - b) else panic

-- Checked arithmetic of other widths, and division.
abbrev pub add16 : ℕ → ℕ → Outcome ℕ
add16 a b = if ltb (a + b) (2 ^ 16) then done (a + b) else panic

abbrev pub add32 : ℕ → ℕ → Outcome ℕ
add32 a b = if ltb (a + b) (2 ^ 32) then done (a + b) else panic

abbrev pub mul64 : ℕ → ℕ → Outcome ℕ
mul64 a b = if ltb (a * b) (2 ^ 64) then done (a * b) else panic

abbrev pub divide : ℕ → ℕ → Outcome ℕ
divide a b = if b == 0 then panic else done (a / b)

abbrev pub remainder : ℕ → ℕ → Outcome ℕ
remainder a b = if b == 0 then panic else done (a % b)

abbrev pub sub32 : ℕ → ℕ → Outcome ℕ
sub32 a b = if leb b a then done (a - b) else panic

abbrev pub mul32 : ℕ → ℕ → Outcome ℕ
mul32 a b = if ltb (a * b) (2 ^ 32) then done (a * b) else panic
