-- ===== src/Text/Number.antt =====
-- Numbers as text: std::to_string, std::stoi, std::stoll and std::stoull as the C++ standard gives
-- them (leading white space, an optional sign, then digits up to the first other byte; an exception
-- on no digit and on a value that the type cannot hold), and IsNumber of src/defines.cpp.
use p2p_file_sharing_system.Prelude.{
  ℕ, zero, suc, ◌+◌, ◌-◌, ◌*◌, ◌/◌, ◌%◌, ◌^◌, ◌≡◌, refl, Bool, true, false, ◌&&◌, ◌||◌, [], ◌∷◌,
  ltb, leb, ◌==◌, if◌then◌else◌, ℤ, pos, negsuc,
}
use p2p_file_sharing_system.Result.{Result, ok, fault, invalid_argument, number_out_of_range, ◌>>=◌}
use p2p_file_sharing_system.Text.{Bytes, codes}
pub mod Digits
pub mod RoundTrip
pub mod Width

-- One digit a round, the last first. The number itself is enough fuel.
digits : ℕ → ℕ → Bytes → Bytes
digits zero n out = out
digits (suc f) n out =
    let rest = digits f (n / 10) ((b'0' + n % 10) ∷ out) in
    if n / 10 == 0 then (b'0' + n % 10) ∷ out else rest

unfoldable pub format : ℕ → Bytes
unfolding digits
format n = digits (suc n) n []

-- std::to_string(int), std::to_string(long long)
unfoldable pub to_string : ℤ → Bytes
unfolding format
to_string (pos n) = format n
to_string (negsuc n) = b'-' ∷ format (suc n)

abbrev pub is_digit : ℕ → Bool
is_digit c = leb b'0' c && leb c b'9'

is_space : ℕ → Bool
is_space c = c == b' ' || (leb 9 c && leb c 13)

skip_space : Bytes → Bytes
unfolding is_space
skip_space [] = []
skip_space (c ∷ s) = if is_space c then skip_space s else c ∷ s

-- The value of the digits at the front, behind those that were read before.
pub scan : ℕ → Bytes → ℕ
scan n [] = n
scan n (c ∷ s) = if is_digit c then scan (n * 10 + (c - b'0')) s else n

magnitude : Bytes → Result ℕ
unfolding scan
magnitude [] = fault invalid_argument
magnitude (c ∷ s) = if is_digit c then ok (scan 0 (c ∷ s)) else fault invalid_argument

-- A sign (true is minus) and the text behind it.
read_sign : Bytes → Bool × Bytes
read_sign [] = (false, [])
read_sign (c ∷ s) =
    if c == b'-' then (true, s) else if c == b'+' then (false, s) else (false, c ∷ s)

signed : Bool → ℕ → ℤ
signed false n = pos n
signed true zero = pos 0
signed true (suc n) = negsuc n

-- The whole number in the text, if there is one.
parse_number : Bytes → Result (Bool × ℕ)
unfolding skip_space read_sign magnitude
parse_number s = do let (minus, rest) = read_sign (skip_space s); n ← magnitude rest; ok (minus, n)

-- `n` fits a signed type of which `limit` is the first value above.
fits_signed : ℕ → Bool → ℕ → Bool
fits_signed limit true n = leb n limit
fits_signed limit false n = ltb n limit

to_signed : ℕ → Bytes → Result ℤ
unfolding parse_number fits_signed signed
to_signed limit s = do
  (minus, n) ← parse_number s
  if fits_signed limit minus n then ok (signed minus n) else fault number_out_of_range

abbrev pub int_limit : ℕ
int_limit = 2 ^ 31

abbrev pub int64_limit : ℕ
int64_limit = 2 ^ 63

abbrev pub uint64_mod : ℕ
uint64_mod = 2 ^ 64

unfoldable pub stoi : Bytes → Result ℤ
unfolding to_signed
stoi s = to_signed int_limit s

unfoldable pub stoll : Bytes → Result ℤ
unfolding to_signed
stoll s = to_signed int64_limit s

-- A minus sign is accepted, and negates modulo 2^64.
unfoldable pub stoull : Bytes → Result ℕ
unfolding parse_number
stoull s = do
  (minus, n) ← parse_number s
  if ltb n uint64_mod
      then ok (if minus then (uint64_mod - n) % uint64_mod else n)
      else fault number_out_of_range

all_digits : Bytes → Bool
all_digits [] = true
all_digits (c ∷ s) = if is_digit c then all_digits s else false

-- IsNumber: the iterator reaches the end of a text that is not empty.
unfoldable pub is_number : Bytes → Bool
unfolding all_digits
is_number [] = false
is_number (c ∷ s) = all_digits (c ∷ s)

to_string_negative : to_string (negsuc 119) ≡ codes "-120"
unfolding to_string
to_string_negative = refl

stoi_prefix : stoi (codes " 42 7") ≡ ok (pos 42)
unfolding stoi
stoi_prefix = refl

stoi_overflow : stoi (codes "2147483648") ≡ fault number_out_of_range
unfolding stoi
stoi_overflow = refl

stoull_negative : stoull (codes "-1") ≡ ok 18446744073709551615
unfolding stoull
stoull_negative = refl
