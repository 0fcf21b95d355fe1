-- ===== src/Transport/Complete.antt =====
-- The sending loops over a send() that makes progress, and the receiving loop over any cut of a stream.
use mathlib.Core.List.{flatten}
use p2p_file_sharing_system.Prelude.{
  ℕ, zero, suc, ◌+◌, ◌-◌, ◌≤◌, ◌<◌, ◌≡◌, ◌≢◌, refl, ap, ◌∙◌, Bool, true, false, Option, some, List,
  [], ◌∷◌, ◌++◌, map, arith, append_assoc, append-nil, ltb, Bool-cases, inl, inr, ℤ, pos, length,
  take, drop, All,
}
use p2p_file_sharing_system.Text.{Bytes}
use p2p_file_sharing_system.Transport.{send_loop, send_file_loop, is_error_or_none, receive_loop}

-- A send() on a connection that works: it takes some of the bytes, and at most all.
abbrev pub Sends : (ℕ → ℕ → ℤ) → Type 0
Sends send = (i n : ℕ) → 0 < n → (r : ℕ) × (send i n ≡ pos r) × (0 < r) × (r ≤ n)

take-drop : (n : ℕ) (s : Bytes) → take n s ++ drop n s ≡ s
take-drop zero s = refl
take-drop (suc n) [] = refl
take-drop (suc n) (c ∷ s) = ap (λ t. c ∷ t) (take-drop n s)

pub length-drop : (n : ℕ) (s : Bytes) → length (drop n s) ≡ length s - n
length-drop zero s = omega arith
length-drop (suc n) [] = omega arith
length-drop (suc n) (c ∷ s) = omega (arith, length-drop n s)

module _ (send : ℕ → ℕ → ℤ) (works : Sends send) where
  -- A loop that goes on while some bytes are taken writes every byte, in order.
  pub send_loop_complete :
      (gives_up : ℤ → Bool) (fuel : ℕ) (left : Bytes) (calls : ℕ) (wire : Bytes)
      → ((r : ℕ) → 0 < r → gives_up (pos r) ≡ false)
      → length left ≤ fuel
      → (calls' : ℕ) × (send_loop send gives_up fuel left calls wire ≡ some (calls', wire ++ left))
  unfolding send_loop
  send_loop_complete gives_up fuel [] calls wire g h = (calls, rw append-nil)
  send_loop_complete gives_up zero (c ∷ left) calls wire g h = absurd (omega arith)
  send_loop_complete gives_up (suc fuel) (c ∷ left) calls wire g h =
      let (r, result, some_taken, at_most) = works calls (length (c ∷ left)) (omega arith) in
      let (calls', rest) =
        send_loop_complete gives_up fuel (drop r (c ∷ left)) (calls + 1) (wire ++ take r (c ∷ left))
          g (omega (arith, length-drop r (c ∷ left))) in
      (
        calls',
        rw (result, g r some_taken)
            (rest
              ∙ ap (λ w. some (calls', w))
                  (append_assoc wire (take r (c ∷ left)) (drop r (c ∷ left))
                    ∙ ap (λ t. wire ++ t) (take-drop r (c ∷ left)))),
      )

take_short : (n : ℕ) (s : Bytes) → length (take n s) < n → take n s ≡ s
take_short zero s h = absurd (omega arith)
take_short (suc n) [] h = refl
take_short (suc n) (c ∷ s) h = ap (λ t. c ∷ t) (take_short n s (omega arith))

length-take-le : (n : ℕ) (s : Bytes) → length (take n s) ≤ length s
length-take-le zero s = omega arith
length-take-le (suc n) [] = omega arith
length-take-le (suc n) (c ∷ s) = omega (arith, length-take-le n s)

ltb→lt : (a b : ℕ) → ltb a b ≡ true → a < b
ltb→lt a b h = ground arith

ltb→le : (a b : ℕ) → ltb a b ≡ false → b ≤ a
ltb→le a b h = ground arith

module _ (send : ℕ → ℕ → ℤ) (works : Sends send) (packet : ℕ) (positive : 0 < packet) where
  -- The file loop with enough fuel: one round for each packet, and one more.
  pub send_file_loop_complete :
      (fuel : ℕ) (contents : Bytes) (calls : ℕ) (wire : Bytes)
      → length contents < fuel
      → (calls' : ℕ) × (send_file_loop send packet fuel contents calls wire
          ≡ some (calls', wire ++ contents))
  unfolding send_file_loop
  send_file_loop_complete zero contents calls wire h = absurd (omega arith)
  send_file_loop_complete (suc fuel) contents calls wire h =
      let chunk = take packet contents in
      let left = drop packet contents in
      let (calls₁, sent) =
        send_loop_complete send works is_error_or_none (length chunk) chunk calls wire
          (λ r p. ground arith) (omega arith) in
      elim (Bool-cases (ltb (length chunk) packet)) [
        | inl last ↦ (
          calls₁,
          rw (sent, last)
              (ap (λ t. some (calls₁, wire ++ t)) (take_short packet contents (ltb→lt _ _ last))),
        )
        | inr more ↦
            let (calls₂, rest) = send_file_loop_complete fuel left calls₁ (wire ++ chunk) (
              omega (
                arith,
                ltb→le _ _ more,
                length-take-le packet contents,
                length-drop packet contents,
              )) in
            (
              calls₂,
              rw (sent, more)
                  (rest
                    ∙ ap (λ t. some (calls₂, t))
                        (append_assoc wire chunk left
                          ∙ ap (λ t. wire ++ t) (take-drop packet contents))),
            )
      ]

-- Segments that are not empty.
abbrev pub AllFilled : List Bytes → Type 0
AllFilled = All (λ s. s ≢ [])

-- However the stream is cut into pieces, the receiver writes the whole of it, once the sender has
-- closed its side.
pub receive_loop_complete :
    (segments : List Bytes) (rest : List (Option Bytes)) (out : Bytes)
    → AllFilled segments
    → receive_loop (map some segments ++ some [] ∷ rest) out ≡ some (out ++ flatten segments)
unfolding receive_loop flatten
receive_loop_complete [] rest out h = rw append-nil
receive_loop_complete ([] ∷ segments) rest out (h, hs) = absurd (h refl)
receive_loop_complete ((c ∷ s) ∷ segments) rest out (h, hs) =
    rw (receive_loop_complete segments rest (out ++ c ∷ s) hs) (simp append_assoc)
