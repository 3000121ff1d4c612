-- ===== src/Base/Bits.antt =====
-- The operators &, | and ^ of C on bytes.
use Prim.Native.Nat.{ℕ, zero, suc, ◌+◌, ◌-◌, ◌*◌, ◌/◌, ◌%◌}

-- On the lowest `bits` bits.
unfoldable pub and_bits : ℕ → ℕ → ℕ → ℕ
and_bits zero a b = 0
and_bits (suc bits) a b = (a % 2) * (b % 2) + 2 * and_bits bits (a / 2) (b / 2)

unfoldable pub or_bits : ℕ → ℕ → ℕ → ℕ
or_bits zero a b = 0
or_bits (suc bits) a b = (a % 2 + b % 2 - (a % 2) * (b % 2)) + 2 * or_bits bits (a / 2) (b / 2)

unfoldable pub xor_bits : ℕ → ℕ → ℕ → ℕ
xor_bits zero a b = 0
xor_bits (suc bits) a b = (a % 2 + b % 2) % 2 + 2 * xor_bits bits (a / 2) (b / 2)

unfoldable pub bit_and : ℕ → ℕ → ℕ
bit_and a b = and_bits 8 a b

unfoldable pub bit_or : ℕ → ℕ → ℕ
bit_or a b = or_bits 8 a b

unfoldable pub bit_xor : ℕ → ℕ → ℕ
bit_xor a b = xor_bits 8 a b
