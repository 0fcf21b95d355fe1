-- ===== src/Transport/Frames.antt =====
-- CTcpServer::HandleRequest (src/tcp_server.cpp) over a stream of messages of one size.
use mathlib.Core.List.{flatten}
use p2p_file_sharing_system.Prelude.{
  ℕ, zero, suc, ◌+◌, ◌-◌, ◌≤◌, ◌<◌, ◌≡◌, refl, ap, sym, ◌∙◌, Bool, false, none, some, List, [], ◌∷◌,
  ◌++◌, arith, append_assoc, append-nil, ◌==◌, Bool-cases, inl, inr, length, length-append, take,
  drop, All,
}
use p2p_file_sharing_system.Text.{Bytes}
use p2p_file_sharing_system.Transport.{Received, fill_loop, handle_request_loop}
use p2p_file_sharing_system.Transport.Complete.{length-drop}

take-take : (a b : ℕ) (s : Bytes) → take a (take b s) ≡ take (length (take a (take b s))) s
take-take zero b s = refl
take-take (suc a) zero s = refl
take-take (suc a) (suc b) [] = refl
take-take (suc a) (suc b) (c ∷ s) = ap (λ t. c ∷ t) (take-take a b s)

length-take-take : (a b : ℕ) (s : Bytes) → length (take a (take b s)) ≤ a
length-take-take zero b s = omega arith
length-take-take (suc a) zero s = omega arith
length-take-take (suc a) (suc b) [] = omega arith
length-take-take (suc a) (suc b) (c ∷ s) = omega (arith, length-take-take a b s)

takes_some : (a b : ℕ) (s : Bytes) → 0 < a → 0 < length s → 0 < length (take a (take (suc b) s))
takes_some zero b s h k = absurd (omega arith)
takes_some (suc a) b [] h k = absurd (omega arith)
takes_some (suc a) b (c ∷ s) h k = omega arith

take-nil : (n : ℕ) → take {A = ℕ} n [] ≡ []
take-nil zero = refl
take-nil (suc n) = refl

drop-nil : (n : ℕ) → drop {A = ℕ} n [] ≡ []
drop-nil zero = refl
drop-nil (suc n) = refl

take-split : (k m n : ℕ) (s : Bytes) → k + m ≡ n → take k s ++ take m (drop k s) ≡ take n s
take-split zero m n s h = ap (λ j. take j s) (omega arith)
take-split (suc k) m zero s h = absurd (omega arith)
take-split (suc k) m (suc n) [] h = take-nil m
take-split (suc k) m (suc n) (c ∷ s) h = ap (λ t. c ∷ t) (take-split k m n s (omega arith))

drop-split : (k m n : ℕ) (s : Bytes) → k + m ≡ n → drop m (drop k s) ≡ drop n s
drop-split zero m n s h = ap (λ j. drop j s) (omega arith)
drop-split (suc k) m zero s h = absurd (omega arith)
drop-split (suc k) m (suc n) [] h = drop-nil m
drop-split (suc k) m (suc n) (c ∷ s) h = drop-split k m n s (omega arith)

take-append : (m s : Bytes) → take (length m) (m ++ s) ≡ m
take-append [] s = refl
take-append (c ∷ m) s = ap (λ t. c ∷ t) (take-append m s)

drop-append : (m s : Bytes) → drop (length m) (m ++ s) ≡ s
drop-append [] s = refl
drop-append (c ∷ m) s = drop-append m s

-- What the inner loop leaves, when it has read `want` bytes more.
abbrev filled : ℕ → ℕ → Received → Received
filled want calls r = record r {
  buffer = r.buffer ++ take want r.stream;
  stream = drop want r.stream;
  calls = calls;
}

filled-filled :
    (k m n calls before : ℕ) (bytes : Bytes) (r : Received)
    → bytes ≡ take k r.stream
    → k + m ≡ n
    → filled m calls
        (record r { buffer = r.buffer ++ bytes; stream = drop k r.stream; calls = before })
      ≡ filled n calls r
filled-filled k m n calls before bytes r e h =
    rw
      (
        e,
        append_assoc r.buffer (take k r.stream) (take m (drop k r.stream)),
        take-split k m n r.stream h,
        drop-split k m n r.stream h,
      )
      refl

module _ (fails : ℕ → Bool) (grant : ℕ → ℕ) (works : (i : ℕ) → fails i ≡ false) where
  fill_loop_complete :
      (fuel want : ℕ) (r : Received)
      → 0 < want
      → want ≤ fuel
      → want ≤ length r.stream
      → (calls : ℕ) × (fill_loop fails grant fuel want r ≡ some (filled want calls r))
  unfolding fill_loop
  fill_loop_complete zero want r h k l = absurd (omega arith)
  fill_loop_complete (suc fuel) want r h k l =
      let bytes = take want (take (suc (grant r.calls)) r.stream) in
      let n = length bytes in
      let got = record r {
        buffer = r.buffer ++ bytes;
        stream = drop n r.stream;
        calls = r.calls + 1;
      } in
      let some_taken : 0 < n = takes_some want (grant r.calls) r.stream h (omega arith) in
      let at_most : n ≤ want = length-take-take want (suc (grant r.calls)) r.stream in
      let prefix : bytes ≡ take n r.stream = take-take want (suc (grant r.calls)) r.stream in
      elim (Bool-cases (want - n == 0)) [
        | inl done ↦
            let all : n ≡ want = ground arith in
            let read : bytes ≡ take want r.stream = prefix ∙ ap (λ j. take j r.stream) all in
            (r.calls + 1, rw (works r.calls, done, all, read) refl)
        | inr more ↦
            let (calls, rest) =
              fill_loop_complete fuel (want - n) got (ground arith) (omega arith)
                (omega (arith, length-drop n r.stream)) in
            (
              calls,
              rw (works r.calls, more)
                  (rest
                    ∙ ap some (
                        filled-filled n (want - n) want calls (r.calls + 1) bytes r prefix
                          (omega arith))),
            )
      ]

  -- With nothing more to come no fuel ends the loop.
  fill_loop_ended :
      (fuel want : ℕ) (r : Received)
      → 0 < want
      → r.stream ≡ []
      → fill_loop fails grant fuel want r ≡ none
  unfolding fill_loop
  fill_loop_ended zero want r h e = refl
  fill_loop_ended (suc fuel) want r h e =
      let bytes = take want (take (suc (grant r.calls)) r.stream) in
      let n = length bytes in
      let none_left : n ≡ 0 = rw (e, take-nil want) refl in
      let got = record r {
        buffer = r.buffer ++ bytes;
        stream = drop n r.stream;
        calls = r.calls + 1;
      } in
      let goes_on : (want - n == 0) ≡ false = ground arith in
      rw (works r.calls, goes_on)
        (fill_loop_ended fuel (want - n) got (omega arith) (ap (drop n) e ∙ drop-nil n))

  -- The rounds of the messages, and those behind them.
  handle_request_loop-append :
      (messages : List Bytes) (total rounds fuel size calls : ℕ) (rest : Bytes)
      (delivered : List Bytes)
      → length messages + rounds ≡ total
      → 0 < size
      → size ≤ fuel
      → All (λ m. length m ≡ size) messages
      → (calls' : ℕ) × (handle_request_loop fails grant total fuel size
            (flatten messages ++ rest)
            calls
            delivered
          ≡ handle_request_loop fails grant rounds fuel size rest calls' (delivered ++ messages))
  unfolding handle_request_loop flatten
  handle_request_loop-append [] total rounds fuel size calls rest delivered t h k all = (
    calls,
    rw append-nil
        (ap (λ n. handle_request_loop fails grant n fuel size rest calls delivered) (omega arith)),
  )
  handle_request_loop-append (m ∷ messages) zero rounds fuel size calls rest delivered t h k all =
      absurd (omega arith)
  handle_request_loop-append (m ∷ messages) (suc total) rounds fuel size calls rest delivered t h k
        (sized, all) =
      let stream = (m ++ flatten messages) ++ rest in
      let cut : stream ≡ m ++ (flatten messages ++ rest) = append_assoc m (flatten messages) rest in
      let long : size ≤ length stream =
        omega (arith, ap length cut, length-append m (flatten messages ++ rest)) in
      let r : Received = record { buffer = []; stream = stream; calls = calls; failed = false } in
      let (calls₁, first) = fill_loop_complete fuel size r h k long in
      let (calls₂, others) =
        handle_request_loop-append messages total rounds fuel size calls₁ rest (delivered ++ m ∷ [])
          (omega arith) h k all in
      let got : take size stream ≡ m =
        ap (λ n. take n stream) (sym sized)
        ∙ ap (take (length m)) cut
        ∙ take-append m (flatten messages ++ rest) in
      let left : drop size stream ≡ flatten messages ++ rest =
        ap (λ n. drop n stream) (sym sized)
        ∙ ap (drop (length m)) cut
        ∙ drop-append m (flatten messages ++ rest) in
      (
        calls₂,
        rw (first, got, left)
            (others
              ∙ ap (handle_request_loop fails grant rounds fuel size rest calls₂)
                  (append_assoc delivered (m ∷ []) messages)),
      )

-- Over a connection that never fails, and however recv() cuts the stream, each of the messages of one
-- size that the other side sent is delivered whole, in order, by one round of the loop. When the other
-- side then closes the connection the next round never ends, whatever fuel it is given.
pub handle_request_loop_lem :
    (fails : ℕ → Bool) (grant : ℕ → ℕ) (messages : List Bytes) (fuel size : ℕ)
    → ((i : ℕ) → fails i ≡ false)
    → 0 < size
    → size ≤ fuel
    → All (λ m. length m ≡ size) messages
    → let deliver =
        λ (rounds : ℕ). handle_request_loop fails grant rounds fuel size (flatten messages) 0 [] in
      (deliver (length messages) ≡ some messages) × (deliver (length messages + 1) ≡ none)
unfolding handle_request_loop
handle_request_loop_lem fails grant messages fuel size works h k all =
    let run = λ (total : ℕ) (rounds : ℕ) (e : length messages + rounds ≡ total).
      handle_request_loop-append fails grant works messages total rounds fuel size 0 [] [] e h k
        all in
    let whole : flatten messages ++ [] ≡ flatten messages = append-nil (flatten messages) in
    let (calls, delivered) = run (length messages) 0 (omega arith) in
    let (calls', closed) = run (length messages + 1) 1 refl in
    let r : Received = record { buffer = []; stream = []; calls = calls'; failed = false } in
    (
      ap (λ s. handle_request_loop fails grant (length messages) fuel size s 0 []) (sym whole)
          ∙ delivered,
      ap (λ s. handle_request_loop fails grant (length messages + 1) fuel size s 0 []) (sym whole)
          ∙ closed
          ∙ rw (fill_loop_ended fails grant works fuel size r h refl) refl,
    )
