-- ===== src/FileTransfer.antt =====
-- Requests for files and what becomes of them: CPeerFileClient (src/peer_file_client.cpp) and
-- CPeerFileServer (src/peer_file_server.cpp).
use p2p_file_sharing_system.Prelude.{
  ℕ, zero, suc, ◌+◌, ◌-◌, ◌*◌, ◌/◌, ◌%◌, ◌≤◌, ◌≡◌, Bool, true, false, Option, none, some, List, [],
  ◌∷◌, ◌++◌, ltb, ◌==◌, if◌then◌else◌, ℤ, pos, length, take,
}
use p2p_file_sharing_system.Result.{
  Result, ok, fault, buffer_overflow, uninitialised, or_fault, ◌>>=◌,
}
use p2p_file_sharing_system.Text.{Bytes, newline}
use p2p_file_sharing_system.Text.Number.{stoi, to_string, uint64_mod}
use p2p_file_sharing_system.Ids.{RequestType, download_file, push_file, ClientRequest, msg_buf_size}
use p2p_file_sharing_system.Buffer.{fill_buffer}
use p2p_file_sharing_system.Transport.{send_file_loop, receive_loop}
pub mod Header
pub mod Download
pub mod Server
mod Tests

abbrev pub request_code : RequestType → ℤ
request_code download_file = pos 0
request_code push_file = pos 1

-- CreateRequestHeader: the type and the name, a newline behind each.
unfoldable pub create_request_header : RequestType → Bytes → Bytes
create_request_header req_type filename =
    (to_string (request_code req_type) ++ newline ∷ []) ++ (filename ++ newline ∷ [])

-- The buffer in which ExecPushFile and ExecObtainFile send the header.
unfoldable pub request_buffer : RequestType → Bytes → Result Bytes
unfolding create_request_header
request_buffer req_type filename = fill_buffer (create_request_header req_type filename)

-- The connect loop of both: `try_connect_times` counts the attempts that failed, and more than ten end
-- it. `attempt i` says whether the i-th connect succeeds; the fuel of twelve is never used up.
unfoldable pub connect_loop : (ℕ → Bool) → ℕ → ℕ → Bool
connect_loop attempt zero tries = false
connect_loop attempt (suc fuel) tries =
    let again = connect_loop attempt fuel (tries + 1) in
    if attempt tries then true else if ltb 10 (tries + 1) then false else again

unfoldable pub connects : (ℕ → Bool) → Bool
unfolding connect_loop
connects attempt = connect_loop attempt 12 0

-- What one request of the queue leads to: the header goes out and the transfer begins, or the request
-- goes back to the end of the queue. `sent` is what send() returned for the header.
pub data Outcome : Type 0 where
  nothing : Outcome
  requeued : ClientRequest → Outcome
  started : ClientRequest → Bytes → Outcome

sent_or_requeued : ClientRequest → ℤ → Bytes → Outcome
sent_or_requeued req (pos (suc n)) buffer = started req buffer
sent_or_requeued req sent buffer = requeued req

unfoldable pub is_empty : Bytes → Bool
is_empty [] = true
is_empty (c ∷ s) = false

-- ExecObtainFile up to HandleObtainResponse.
unfoldable pub exec_obtain_file : (ℕ → Bool) → ℤ → ClientRequest → Result Outcome
unfolding sent_or_requeued
exec_obtain_file attempt sent req =
    if connects attempt
    then request_buffer download_file req.filename >>= (λ b. ok (sent_or_requeued req sent b))
    else ok (requeued req)

-- ExecPushFile up to HandlePushResponse: a request without a name is dropped.
unfoldable pub exec_push_file : (ℕ → Bool) → ℤ → ClientRequest → Result Outcome
unfolding sent_or_requeued is_empty
exec_push_file attempt sent req =
    if is_empty req.filename
    then ok nothing
    else if connects attempt
    then request_buffer push_file req.filename >>= (λ b. ok (sent_or_requeued req sent b))
    else ok (requeued req)

unfoldable pub exec_request : (ℕ → Bool) → ℤ → RequestType → ClientRequest → Result Outcome
unfolding exec_obtain_file exec_push_file
exec_request attempt sent download_file req = exec_obtain_file attempt sent req
exec_request attempt sent push_file req = exec_push_file attempt sent req

unfoldable pub requeue : List ClientRequest → Outcome → List ClientRequest
requeue queue nothing = queue
requeue queue (requeued req) = queue ++ req ∷ []
requeue queue (started req buffer) = queue

-- A round of HandleRequestThreadFunc over the request queue, which waits while the queue is empty.
unfoldable pub handle_request_round :
    (ℕ → Bool) → ℤ → List ClientRequest → Result (List ClientRequest × Outcome)
unfolding exec_request requeue
handle_request_round attempt sent [] = ok ([], nothing)
handle_request_round attempt sent (req ∷ queue) =
    exec_request attempt sent req.req_type req >>= λ o. ok (requeue queue o, o)

-- The bytes up to the first newline, and those behind it: `pos[0]` and `pos[1]` of HandleClient by
-- turns. Where there is no newline the position is never written.
unfoldable pub cut_line : Bytes → Option (Bytes × Bytes)
cut_line [] = none
cut_line (c ∷ s) =
    let rest : Option (Bytes × Bytes) = elim (cut_line s) [
      | none ↦ none
      | some (line, behind) ↦ some (c ∷ line, behind)
    ] in
    if c == newline then some ([], s) else rest

-- The beginning of HandleClient on the bytes that recv() returned: the request's type, as a number, and
-- the name. `msg_buffer[byte_size] = '\0'` is written behind the buffer where recv filled it.
unfoldable pub parse_request : Bytes → Result (ℤ × Bytes)
unfolding cut_line
parse_request received = if length received == msg_buf_size then fault buffer_overflow else do
  (type_text, behind) ← or_fault (cut_line received) uninitialised
  req_type ← stoi type_text
  (filename, _) ← or_fault (cut_line behind) uninitialised
  ok (req_type, filename)

-- FILE_TRANSFER_PACKET_SIZE, and the file loop with fuel for every packet.
abbrev pub file_transfer_packet_size : ℕ
file_transfer_packet_size = 42 * 1024

unfoldable pub send_file : (ℕ → ℕ → ℤ) → Bytes → Option (ℕ × Bytes)
unfolding send_file_loop
send_file send contents =
    send_file_loop send file_transfer_packet_size (suc (length contents)) contents 0 []

-- The file that HandleObtainResponse writes.
unfoldable pub receive_file : List (Option Bytes) → Option Bytes
unfolding receive_loop
receive_file results = receive_loop results []

abbrev pub file_chunk_size : ℕ
file_chunk_size = 40 * 1024

-- CalcChunkNums, on a 64-bit size_t.
unfoldable pub calc_chunk_nums : ℕ → ℕ
calc_chunk_nums file_size = ((file_size + file_chunk_size - 1) % uint64_mod) / file_chunk_size
