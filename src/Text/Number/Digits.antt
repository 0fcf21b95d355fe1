-- ===== src/Text/Number/Digits.antt =====
-- The digits that `format` writes, and what scanning them gives.
use p2p_file_sharing_system.Prelude.{
  ℕ, zero, suc, ◌+◌, ◌/◌, ◌%◌, ◌≤◌, ◌<◌, ◌≡◌, ◌≢◌, refl, true, [], ◌∷◌, arith, All,
}
use p2p_file_sharing_system.Text.{Bytes}
use p2p_file_sharing_system.Text.Number.{digits, format, scan, is_number, all_digits}

abbrev pub IsDigit : ℕ → Type 0
IsDigit c = (b'0' ≤ c) × (c ≤ b'9')

-- Reading the last digit behind the others gives the number.
scan_last : (n : ℕ) (out : Bytes) → scan (n / 10) ((b'0' + n % 10) ∷ out) ≡ scan n out
unfolding scan
scan_last n out = ground arith

scan-digits : (f n : ℕ) (out : Bytes) → n < f → scan 0 (digits f n out) ≡ scan n out
unfolding digits
scan-digits zero n out h = absurd (omega arith)
scan-digits (suc f) n out h =
    ground (arith, scan-digits f (n / 10) ((b'0' + n % 10) ∷ out), scan_last n out)

pub scan-format : (n : ℕ) → scan 0 (format n) ≡ n
unfolding format scan
scan-format n = scan-digits (suc n) n [] (omega arith)

digits-IsDigit : (f n : ℕ) (out : Bytes) → All IsDigit out → All IsDigit (digits f n out)
unfolding digits
digits-IsDigit zero n out h = h
digits-IsDigit (suc f) n out h = ground (arith, digits-IsDigit f (n / 10) ((b'0' + n % 10) ∷ out))

pub format-IsDigit : (n : ℕ) → All IsDigit (format n)
unfolding format
format-IsDigit n = digits-IsDigit (suc n) n [] tt

digits-ne-nil : (f n : ℕ) (c : ℕ) (out : Bytes) → digits f n (c ∷ out) ≢ []
unfolding digits
digits-ne-nil zero n c out = λ e. cc
digits-ne-nil (suc f) n c out = ground (arith, digits-ne-nil f (n / 10) (b'0' + n % 10) (c ∷ out))

pub format-ne-nil : (n : ℕ) → format n ≢ []
unfolding format digits
format-ne-nil n = ground (arith, digits-ne-nil n (n / 10) (b'0' + n % 10) [])

all_digits-IsDigit : (s : Bytes) → All IsDigit s → all_digits s ≡ true
unfolding all_digits
all_digits-IsDigit [] h = refl
all_digits-IsDigit (c ∷ s) (h, hs) = ground (arith, all_digits-IsDigit s hs)

pub is_number-filled : (s : Bytes) → s ≢ [] → All IsDigit s → is_number s ≡ true
unfolding is_number
is_number-filled [] h d = absurd (h refl)
is_number-filled (c ∷ s) h d = all_digits-IsDigit (c ∷ s) d
