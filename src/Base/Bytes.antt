-- ===== src/Base/Bytes.antt =====
-- Bytes in a memory that is a function from addresses to bytes.
use Prim.Native.Nat.{ℕ, zero, suc, ◌+◌, ◌*◌, ◌/◌, ◌%◌}
use mathlib.Core.Bool.{Bool, true, false, ◌&&◌}
use mathlib.Core.List.{List, [], ◌∷◌}
use mini_visor.Base.Tests.{◌==◌, if◌then◌else◌}

-- The bytes from an address on.
abbrev pub bytes_at : (ℕ → ℕ) → ℕ → ℕ → List ℕ
bytes_at memory p zero = []
bytes_at memory p (suc n) = memory p ∷ bytes_at memory (p + 1) n

abbrev pub same_bytes : List ℕ → List ℕ → Bool
same_bytes [] [] = true
same_bytes [] (y ∷ ys) = false
same_bytes (x ∷ xs) [] = false
same_bytes (x ∷ xs) (y ∷ ys) = x == y && same_bytes xs ys

abbrev pub Memory : Type 0
Memory = ℕ → ℕ

-- `n` bytes, the lowest first.
unfoldable pub read_bytes : ℕ → Memory → ℕ → ℕ
read_bytes zero memory a = 0
read_bytes (suc n) memory a = memory a + 256 * read_bytes n memory (a + 1)

unfoldable pub write_bytes : ℕ → Memory → ℕ → ℕ → Memory
write_bytes zero memory a value = memory
write_bytes (suc n) memory a value =
    write_bytes n (λ p. if p == a then value % 256 else memory p) (a + 1) (value / 256)
