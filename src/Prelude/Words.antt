-- ===== src/Prelude/Words.antt =====
-- Unsigned machine words as native numbers; every operation wraps as the source's type does.
use Prim.Native.Nat.{ℕ, ◌+◌, ◌-◌, ◌%◌}

abbrev pub u64_mod : ℕ
u64_mod = 18446744073709551616

abbrev pub u32_mod : ℕ
u32_mod = 4294967296

abbrev pub u16_mod : ℕ
u16_mod = 65536

abbrev pub add64 : ℕ → ℕ → ℕ
add64 a b = (a + b) % u64_mod

abbrev pub sub64 : ℕ → ℕ → ℕ
sub64 a b = (a + u64_mod - b) % u64_mod

abbrev pub add32 : ℕ → ℕ → ℕ
add32 a b = (a + b) % u32_mod
