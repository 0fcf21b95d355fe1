-- ===== src/Transport.antt =====
-- The loops that write to and read from sockets. What send() and recv() return is the environment's
-- choice: `send i n` is the result of the i-th call of send with n bytes, and the i-th call of recv
-- fails if `fails i`, or else takes at least one and at most `suc (grant i)` bytes of what is asked
-- for, or none where the other side has closed the connection behind the last byte.
use p2p_file_sharing_system.Prelude.{
  ℕ, zero, suc, ◌+◌, ◌-◌, ◌≤◌, ◌<◌, ◌≡◌, Bool, true, false, Option, none, some, List, [], ◌∷◌, ◌++◌,
  ltb, ◌==◌, if◌then◌else◌, ℤ, pos, negsuc, pos_part, leb_ℤ, ltb_ℤ, length, take, drop, replicate,
}
use p2p_file_sharing_system.Text.{Bytes}
pub mod Accepting
pub mod Complete
pub mod Frames
mod Tests

-- The two tests by which the loops give up: `sent < 0` for messages, `sent <= 0` for files.
abbrev pub is_error : ℤ → Bool
is_error r = ltb_ℤ r (pos 0)

abbrev pub is_error_or_none : ℤ → Bool
is_error_or_none r = leb_ℤ r (pos 0)

module _ (send : ℕ → ℕ → ℤ) where
  -- `while (bytes_sent < size) { sent = send(...); if (...) break; bytes_sent += sent; }` over the
  -- bytes that are left. The result is the number of calls and all that was written so far; `none`
  -- means that the fuel ran out.
  unfoldable pub send_loop : (ℤ → Bool) → ℕ → Bytes → ℕ → Bytes → Option (ℕ × Bytes)
  send_loop gives_up fuel [] calls wire = some (calls, wire)
  send_loop gives_up zero (c ∷ left) calls wire = none
  send_loop gives_up (suc fuel) (c ∷ left) calls wire =
      let sent = send calls (length (c ∷ left)) in
      let rest =
        send_loop gives_up fuel (drop (pos_part sent) (c ∷ left)) (calls + 1)
          (wire ++ take (pos_part sent) (c ∷ left)) in
      if gives_up sent then some (calls + 1, wire) else rest

  after_chunk :
      ℕ
      → ℕ
      → Bytes
      → (Bytes → ℕ → Bytes → Option (ℕ × Bytes))
      → Option (ℕ × Bytes)
      → Option (ℕ × Bytes)
  after_chunk packet size left next none = none
  after_chunk packet size left next (some (calls, wire)) =
      if ltb size packet then some (calls, wire) else next left calls wire

  -- The loop of SendFile and HandlePushResponse: packets are read from the file and sent, up to the
  -- first that is shorter than a packet. A chunk that cannot be sent does not end the loop.
  unfoldable pub send_file_loop : ℕ → ℕ → Bytes → ℕ → Bytes → Option (ℕ × Bytes)
  unfolding after_chunk send_loop
  send_file_loop packet zero contents calls wire = none
  send_file_loop packet (suc fuel) contents calls wire =
      let chunk = take packet contents in
      after_chunk packet (length chunk) (drop packet contents) (send_file_loop packet fuel)
        (send_loop is_error_or_none (length chunk) chunk calls wire)

-- The loop of HandleObtainResponse and ReceiveFile over what recv returned: an error, or bytes, none
-- of them at the end of the stream. `none` means that the loop waits for more.
unfoldable pub receive_loop : List (Option Bytes) → Bytes → Option Bytes
receive_loop [] out = none
receive_loop (none ∷ results) out = some out
receive_loop (some [] ∷ results) out = some out
receive_loop (some (c ∷ s) ∷ results) out = receive_loop results (out ++ c ∷ s)

-- What the inner loop of CTcpServer::HandleRequest leaves behind.
pub record Received : Type 0 where
  pub buffer : Bytes
  pub stream : Bytes
  pub calls : ℕ
  pub failed : Bool

module _ (fails : ℕ → Bool) (grant : ℕ → ℕ) where
  -- `do { recv } while (bytesReceived < m_buffer_size)`; `want` bytes are still to come. A recv that
  -- returns no byte does not end the loop.
  unfoldable pub fill_loop : ℕ → ℕ → Received → Option Received
  fill_loop zero want r = none
  fill_loop (suc fuel) want r =
      let bytes = take want (take (suc (grant r.calls)) r.stream) in
      let got = record r {
        buffer = r.buffer ++ bytes;
        stream = drop (length bytes) r.stream;
        calls = r.calls + 1;
      } in
      let more = fill_loop fuel (want - length bytes) got in
      if fails r.calls
      then some (record r { calls = r.calls + 1; failed = true })
      else if want - length bytes == 0
      then some got
      else more

  -- The bytes that an error kept from coming are zero, as memset left them.
  next_message :
      (Bytes → ℕ → List Bytes → Option (List Bytes))
      → ℕ
      → List Bytes
      → Option Received
      → Option (List Bytes)
  next_message next size delivered none = none
  next_message next size delivered (some r) =
      if r.failed
      then some (delivered ++ (r.buffer ++ replicate (size - length r.buffer) 0) ∷ [])
      else next r.stream r.calls (delivered ++ r.buffer ∷ [])

  -- The outer loop, for a server that keeps running: every buffer goes to DealWithRequest, the one
  -- that an error cut short too, and an error alone ends the loop. `rounds` and `fuel` bound the two
  -- loops; the result is all that was delivered.
  unfoldable pub handle_request_loop : ℕ → ℕ → ℕ → Bytes → ℕ → List Bytes → Option (List Bytes)
  unfolding fill_loop next_message
  handle_request_loop zero fuel size stream calls delivered = some delivered
  handle_request_loop (suc rounds) fuel size stream calls delivered =
      next_message (handle_request_loop rounds fuel size) size delivered (
        fill_loop fuel size
          (record { buffer = []; stream = stream; calls = calls; failed = false }))
