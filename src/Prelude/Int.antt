-- ===== src/Prelude/Int.antt =====
-- The C `int` of a status: 0 on success, a negative errno on failure.
use Prim.Native.Nat.{ℕ, ◌+◌, ◌-◌, ◌%◌, ◌^◌}
use mathlib.Core.Bool.{Bool, true, false}
use canon_r.Prelude.Tests.{ltb, ◌==◌, if◌then◌else◌}

-- `negsuc n` is -(n + 1).
pub data ℤ : Type 0 where
  pos : ℕ → ℤ
  negsuc : ℕ → ℤ

-- `-n` for a positive errno n.
abbrev pub minus : ℕ → ℤ
minus n = negsuc (n - 1)

-- The test `if (ret)`.
abbrev pub failed : ℤ → Bool
failed (pos n) = if n == 0 then false else true
failed (negsuc n) = true

-- A size_t given where an int is expected: the low 32 bits, read as two's complement.
unfoldable pub to_int : ℕ → ℤ
to_int n = let w = n % 2 ^ 32 in if ltb w (2 ^ 31) then pos w else negsuc (2 ^ 32 - w - 1)

abbrev pub lt_int : ℤ → ℤ → Bool
lt_int (pos m) (pos n) = ltb m n
lt_int (pos m) (negsuc n) = false
lt_int (negsuc m) (pos n) = true
lt_int (negsuc m) (negsuc n) = ltb n m

unfoldable pub add_int : ℤ → ℕ → ℤ
add_int (pos m) n = pos (m + n)
add_int (negsuc m) n = if ltb m n then pos (n - m - 1) else negsuc (m - n)

unfoldable pub sub_int : ℤ → ℕ → ℤ
sub_int (pos m) n = if ltb m n then negsuc (n - m - 1) else pos (m - n)
sub_int (negsuc m) n = negsuc (m + n)

abbrev pub enoent : ℤ
enoent = minus 2

abbrev pub eio : ℤ
eio = minus 5

abbrev pub eagain : ℤ
eagain = minus 11

abbrev pub enomem : ℤ
enomem = minus 12

abbrev pub ebusy : ℤ
ebusy = minus 16

abbrev pub eexist : ℤ
eexist = minus 17

abbrev pub enodev : ℤ
enodev = minus 19

abbrev pub einval : ℤ
einval = minus 22

abbrev pub epipe : ℤ
epipe = minus 32

abbrev pub enodata : ℤ
enodata = minus 61

abbrev pub eproto : ℤ
eproto = minus 71

abbrev pub enotconn : ℤ
enotconn = minus 107

abbrev pub success : ℤ
success = pos 0
