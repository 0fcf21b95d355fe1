-- ===== src/Text/Number/RoundTrip.antt =====
-- std::to_string behind std::stoi, std::stoll and std::stoull.
use p2p_file_sharing_system.Prelude.{
  ℕ, suc, ◌<◌, ◌⊎◌, inl, ◌≡◌, ◌≢◌, refl, true, false, [], ◌∷◌, arith, All, ℤ, pos, negsuc,
}
use p2p_file_sharing_system.Result.{ok}
use p2p_file_sharing_system.Text.{Bytes, Lacks, newline}
use p2p_file_sharing_system.Text.Number.{
  format, to_string, is_number, scan, parse_number, to_signed, stoi, stoll, stoull, uint64_mod,
  int_limit, int64_limit,
}
use p2p_file_sharing_system.Text.Number.Digits.{
  IsDigit, is_number-filled, scan-format, format-IsDigit, format-ne-nil,
}

-- A text of digits is all magnitude, and a minus sign in front is the sign.
parse_digits :
    (t : Bytes)
    → All IsDigit t
    → t ≢ []
    → (parse_number t ≡ ok (false, scan 0 t)) × (parse_number (b'-' ∷ t) ≡ ok (true, scan 0 t))
unfolding parse_number
parse_digits [] d h = absurd (h refl)
parse_digits (c ∷ s) d h = ground arith

parse-format :
    (n : ℕ)
    → (parse_number (format n) ≡ ok (false, n)) × (parse_number (b'-' ∷ format n) ≡ ok (true, n))
parse-format n =
    let (plain, minus) = parse_digits (format n) (format-IsDigit n) (format-ne-nil n) in
    ground (arith, scan-format n)

-- The values that a signed type holds.
abbrev pub Fits : ℕ → ℤ → Type 0
Fits limit (pos n) = n < limit
Fits limit (negsuc n) = n < limit

to_signed-to_string : (limit : ℕ) (z : ℤ) → Fits limit z → to_signed limit (to_string z) ≡ ok z
unfolding to_signed to_string
to_signed-to_string limit (pos n) h = ground (arith, parse-format n)
to_signed-to_string limit (negsuc n) h = ground (arith, parse-format (suc n))

-- Every int is read back from its decimal text by std::stoi.
pub stoi-to_string : (z : ℤ) → Fits int_limit z → stoi (to_string z) ≡ ok z
unfolding stoi
stoi-to_string z h = to_signed-to_string int_limit z h

pub stoll-to_string : (z : ℤ) → Fits int64_limit z → stoll (to_string z) ≡ ok z
unfolding stoll
stoll-to_string z h = to_signed-to_string int64_limit z h

pub stoull-format : (n : ℕ) → n < uint64_mod → stoull (format n) ≡ ok n
unfolding stoull
stoull-format n h = ground (arith, parse-format n)

-- A byte that is neither a digit nor a minus sign.
-- A byte that stands in no number.
abbrev pub IsNoDigit : ℕ → Type 0
IsNoDigit b = (b ≢ b'-') × ((b < b'0') ⊎ (b'9' < b))

Lacks-digits : (b : ℕ) → IsNoDigit b → (t : Bytes) → All IsDigit t → Lacks b t
Lacks-digits b other [] d = tt
Lacks-digits b other (c ∷ t) d = (ground arith, Lacks-digits b other t d.1)

pub format-Lacks_other : (b : ℕ) → IsNoDigit b → (n : ℕ) → Lacks b (format n)
format-Lacks_other b other n = Lacks-digits b other (format n) (format-IsDigit n)

pub format-Lacks : (n : ℕ) → Lacks newline (format n)
format-Lacks = format-Lacks_other newline (omega arith, inl (omega arith))

pub to_string-Lacks_other : (b : ℕ) → IsNoDigit b → (z : ℤ) → Lacks b (to_string z)
unfolding to_string
to_string-Lacks_other b other (pos n) = format-Lacks_other b other n
to_string-Lacks_other b other (negsuc n) = (ground arith, format-Lacks_other b other (suc n))

pub to_string-Lacks : (z : ℤ) → Lacks newline (to_string z)
to_string-Lacks = to_string-Lacks_other newline (omega arith, inl (omega arith))

pub to_string-ne-nil : (n : ℕ) → to_string (pos n) ≢ []
unfolding to_string
to_string-ne-nil n = format-ne-nil n

pub is_number-to_string : (n : ℕ) → is_number (to_string (pos n)) ≡ true
unfolding to_string
is_number-to_string n = is_number-filled (format n) (format-ne-nil n) (format-IsDigit n)
