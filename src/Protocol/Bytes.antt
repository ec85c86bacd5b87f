-- ===== src/Protocol/Bytes.antt =====
-- Little-endian numbers and two's complement: writing and reading back.
use velocity_match.Common.{ℕ, zero, suc, ◌*◌, ◌/◌, ◌^◌, ◌<◌, ◌≡◌, ℤ, pos, negsuc, IsI64, arith}
use velocity_match.Protocol.{to_le, from_le, bits_of, i64_of}

-- The bound of a number of `n` bytes.
abbrev pub bound : ℕ → ℕ
bound zero = 1
bound (suc n) = 256 * bound n

pub from_le-to_le : (n x : ℕ) → x < bound n → from_le (to_le n x) ≡ x
from_le-to_le zero x h = omega arith
from_le-to_le (suc n) x h = omega (arith, from_le-to_le n (x / 256) (omega arith))

pub i64_of-bits_of : (z : ℤ) → IsI64 z → i64_of (bits_of z) ≡ z
i64_of-bits_of (pos n) h = ground arith
i64_of-bits_of (negsuc n) h = ground arith

pub bits_of-bound : (z : ℤ) → IsI64 z → bits_of z < 2 ^ 64
bits_of-bound (pos n) h = omega arith
bits_of-bound (negsuc n) h = omega arith
