-- ===== src/Pb/Zigzag.antt =====
-- pb_int2uint and pb_uint2int of knv/pb.h. An int64_t is its bit pattern, a number below 2 ^ 64, and
-- it is negative from 2 ^ 63 on.
use mysql_proxy.Common.{
  ℕ, ◌+◌, ◌-◌, ◌*◌, ◌/◌, ◌%◌, ◌^◌, ◌<◌, ◌≡◌, arith, ltb, ◌==◌, if◌then◌else◌, bit_and,
}
use mysql_proxy.Common.Bits.{and_one}

-- `~x`
abbrev complement : ℕ → ℕ
complement x = 2 ^ 64 - 1 - x

-- `s < 0? ~(s << 1) : s << 1`
pub pb_int2uint : ℕ → ℕ
pb_int2uint s = if ltb s (2 ^ 63) then s * 2 % 2 ^ 64 else complement (s * 2 % 2 ^ 64)

-- `(u & 1)? ~(u >> 1) : u >> 1`
pub pb_uint2int : ℕ → ℕ
pb_uint2int u = if bit_and u 1 == 0 then u / 2 else complement (u / 2)

-- The two functions are inverse to one another on all 64-bit words.
pub pb_uint2int-pb_int2uint :
    (w : ℕ) → w < 2 ^ 64 → (pb_uint2int (pb_int2uint w) ≡ w) × (pb_int2uint (pb_uint2int w) ≡ w)
unfolding pb_uint2int pb_int2uint
pb_uint2int-pb_int2uint w h = (
  ground (arith, and_one (w * 2 % 2 ^ 64), and_one (complement (w * 2 % 2 ^ 64))),
  ground (arith, and_one w),
)

-- Numbers near 0 go to small words: `n` to `2n`, and `-(n + 1)`, whose pattern is `2 ^ 64 - 1 - n`,
-- to `2n + 1`.
pub pb_int2uint_small :
    (n : ℕ) → n < 2 ^ 63 → (pb_int2uint n ≡ 2 * n) × (pb_int2uint (2 ^ 64 - 1 - n) ≡ 2 * n + 1)
unfolding pb_int2uint
pb_int2uint_small n h = ground arith
