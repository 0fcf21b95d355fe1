-- ===== src/Commands/Reading.antt =====
-- How the loop of CPeerClient::Run (src/peer_client.cpp) reads a line of input.
use p2p_file_sharing_system.Prelude.{
  ℕ, zero, suc, ◌≡◌, refl, ap, none, some, [], ◌∷◌, ◌++◌, arith, ltb, if◌then◌else◌, length, take,
  take-All, ◌≢◌, drop,
}
use p2p_file_sharing_system.Text.{Bytes, Lacks, newline}
use p2p_file_sharing_system.Commands.{
  fgets, before_zero, before_last, or_whole, command_text, read_line, read_command,
  user_command_size,
}

fgets-line :
    (n : ℕ) (line rest : Bytes)
    → Lacks newline line
    → fgets n (line ++ newline ∷ rest) ≡ (
        if ltb (length line) n
        then (line ++ newline ∷ [], rest)
        else (take n line, drop n line ++ newline ∷ rest))
unfolding fgets
fgets-line zero line rest h = ground arith
fgets-line (suc n) [] rest h = ground arith
fgets-line (suc n) (c ∷ line) rest (h, hs) = ground (arith, fgets-line n line rest hs)

before_zero-Lacks : (s : Bytes) → Lacks 0 s → before_zero s ≡ s
unfolding before_zero
before_zero-Lacks [] h = refl
before_zero-Lacks (c ∷ s) (h, hs) = ground (arith, before_zero-Lacks s hs)

before_last-Lacks : (c : ℕ) (s : Bytes) → Lacks c s → before_last c s ≡ none
unfolding before_last
before_last-Lacks c [] h = refl
before_last-Lacks c (b ∷ s) (h, hs) = ground (arith, before_last-Lacks c s hs)

before_last-append : (c : ℕ) (s : Bytes) → Lacks c s → before_last c (s ++ c ∷ []) ≡ some s
unfolding before_last
before_last-append c [] h = ground arith
before_last-append c (b ∷ s) (h, hs) = ground (arith, before_last-append c s hs)

before_zero-line : (s : Bytes) → Lacks 0 s → before_zero (s ++ newline ∷ []) ≡ s ++ newline ∷ []
unfolding before_zero
before_zero-line [] h = refl
before_zero-line (c ∷ s) (h, hs) = ground (arith, before_zero-line s hs)

command_text-line : (s : Bytes) → Lacks newline s → Lacks 0 s → command_text (s ++ newline ∷ []) ≡ s
unfolding command_text
command_text-line s h z =
    rw (before_zero-line s z) (ap (or_whole (s ++ newline ∷ [])) (before_last-append newline s h))

command_text-part : (s : Bytes) → Lacks newline s → Lacks 0 s → command_text s ≡ s
unfolding command_text
command_text-part s h z =
    rw (before_zero-Lacks s z) (ap (or_whole s) (before_last-Lacks newline s h))

read_line_lem :
    (n : ℕ) (line rest : Bytes)
    → Lacks newline line
    → Lacks 0 line
    → read_line n (line ++ newline ∷ rest)
      ≡ (if ltb (length line) n then (line, rest) else (take n line, drop n line ++ newline ∷ rest))
unfolding read_line
read_line_lem n line rest h z = ground (
  arith,
  fgets-line n line rest h,
  command_text-line line h z,
  command_text-part (take n line) (take-All (λ c. c ≢ newline) n line h)
      (take-All (λ c. c ≢ 0) n line z),
)

-- A line of at most 98 bytes, none of them zero, is read as one command. The first 99 bytes of a longer
-- one are read as a command, and what follows them is left for the next.
pub read_command_lem :
    (line rest : Bytes)
    → Lacks newline line
    → Lacks 0 line
    → read_command (line ++ newline ∷ rest) ≡ (
        if ltb (length line) user_command_size
        then (line, rest)
        else (take user_command_size line, drop user_command_size line ++ newline ∷ rest))
unfolding read_command
read_command_lem line rest h z = read_line_lem user_command_size line rest h z
