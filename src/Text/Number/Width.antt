-- ===== src/Text/Number/Width.antt =====
-- How many bytes a number takes.
use p2p_file_sharing_system.Prelude.{
  ℕ, zero, suc, ◌+◌, ◌*◌, ◌/◌, ◌%◌, ◌≤◌, ◌<◌, [], ◌∷◌, arith, length, ℤ, pos, negsuc,
}
use p2p_file_sharing_system.Text.{Bytes}
use p2p_file_sharing_system.Text.Number.{
  digits, format, to_string, int_limit, int64_limit, uint64_mod,
}
use p2p_file_sharing_system.Text.Number.RoundTrip.{Fits}

-- The least number with more than `k` digits.
ten_to : ℕ → ℕ
ten_to zero = 1
ten_to (suc k) = 10 * ten_to k

length-digits :
    (k f n : ℕ) (out : Bytes) → n < ten_to (suc k) → length (digits f n out) ≤ suc k + length out
unfolding digits ten_to
length-digits k zero n out h = omega arith
length-digits zero (suc f) n out h = ground arith
length-digits (suc k) (suc f) n out h =
    ground (arith, length-digits k f (n / 10) ((b'0' + n % 10) ∷ out))

length-format : (k n : ℕ) → n < ten_to (suc k) → length (format n) ≤ suc k
unfolding format
length-format k n h = omega (arith, length-digits k (suc n) n [] h)

pub length-format_uint64 : (n : ℕ) → n < uint64_mod → length (format n) ≤ 20
unfolding ten_to
length-format_uint64 n h = length-format 19 n (omega arith)

pub length-to_string_int : (z : ℤ) → Fits int_limit z → length (to_string z) ≤ 11
unfolding to_string ten_to
length-to_string_int (pos n) h = omega (arith, length-format 9 n)
length-to_string_int (negsuc n) h = omega (arith, length-format 9 (suc n))

pub length-to_string_int64 : (z : ℤ) → Fits int64_limit z → length (to_string z) ≤ 20
unfolding to_string ten_to
length-to_string_int64 (pos n) h = omega (arith, length-format 18 n)
length-to_string_int64 (negsuc n) h = omega (arith, length-format 18 (suc n))
