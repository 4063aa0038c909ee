-- ===== src/Base/Words.antt =====
-- Machine words: wrap-around by `%`, shifts by `*` and `/`.
use Prim.Native.Nat.{ℕ, ◌-◌, ◌*◌, ◌/◌, ◌%◌, ◌^◌}

abbrev pub u8 : ℕ → ℕ
u8 n = n % 2 ^ 8

abbrev pub u16 : ℕ → ℕ
u16 n = n % 2 ^ 16

abbrev pub u32 : ℕ → ℕ
u32 n = n % 2 ^ 32

abbrev pub u64 : ℕ → ℕ
u64 n = n % 2 ^ 64

infixl 55 ◌<<◌ ◌>>>◌
abbrev pub ◌<<◌ : ℕ → ℕ → ℕ
x << k = x * 2 ^ k

abbrev pub ◌>>>◌ : ℕ → ℕ → ℕ
x >>> k = x / 2 ^ k

-- `~x` of a uint32_t.
abbrev pub not32 : ℕ → ℕ
not32 x = 2 ^ 32 - 1 - x
