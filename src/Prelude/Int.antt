-- ===== src/Prelude/Int.antt =====
-- `i64` values that come from a request, and the clamp that the program puts on them.
use Prim.Native.Nat.{ℕ, max, ◌-◌, ◌^◌}
use aardbin.Prelude.Tests.{ltb, if◌then◌else◌}

-- `negsuc n` is -(n + 1).
pub data ℤ : Type 0 where
  pos : ℕ → ℤ
  negsuc : ℕ → ℤ

-- the values of an `i64` that are not negative, counted
abbrev pub i64_limit : ℕ
i64_limit = 2 ^ 63

-- `n as i64`, for a `u64`
abbrev pub as_i64 : ℕ → ℤ
as_i64 n = if ltb n i64_limit then pos n else negsuc (2 ^ 64 - n - 1)

-- `n.max(1)`
abbrev pub max_one : ℤ → ℕ
max_one (pos n) = max n 1
max_one (negsuc n) = 1
