-- ===== src/FileTransfer/Download.antt =====
-- Requests of src/peer_file_client.cpp from the attempt to connect to the file that is written.
use mathlib.Core.List.{flatten}
use p2p_file_sharing_system.Prelude.{
  if◌then◌else◌, pos, refl, Bool-cases, inl, inr, ℕ, zero, suc, ◌≡◌, ◌≢◌, ap, ◌∙◌, Bool, false,
  ◌||◌, Option, some, List, [], ◌∷◌, ◌++◌, map, arith, ℤ, length,
}
use p2p_file_sharing_system.Result.{ok}
use p2p_file_sharing_system.Text.{Bytes}
use p2p_file_sharing_system.Ids.{RequestType, ClientRequest, download_file, push_file}
use p2p_file_sharing_system.Transport.Complete.{
  Sends, AllFilled, send_file_loop_complete, receive_loop_complete,
}
use p2p_file_sharing_system.FileTransfer.{
  send_file, receive_file, connects, handle_request_round, exec_request, exec_obtain_file,
  exec_push_file, requeued, started, request_buffer, file_transfer_packet_size, is_empty, requeue,
}

pub send_file_whole :
    (send : ℕ → ℕ → ℤ) (contents : Bytes)
    → Sends send
    → (calls : ℕ) × (send_file send contents ≡ some (calls, contents))
unfolding send_file
send_file_whole send contents works =
    send_file_loop_complete send works file_transfer_packet_size (omega arith)
      (suc (length contents)) contents 0 [] (omega arith)

pub receive_file_whole :
    (segments : List Bytes) (rest : List (Option Bytes))
    → AllFilled segments
    → receive_file (map some segments ++ some [] ∷ rest) ≡ some (flatten segments)
unfolding receive_file
receive_file_whole segments rest filled = receive_loop_complete segments rest [] filled

-- Over a connection that works the whole file is sent, packet by packet, and however the network cuts
-- the stream into pieces, the receiver writes a file with the same contents.
pub file_arrives_whole :
    (send : ℕ → ℕ → ℤ) (contents : Bytes) (segments : List Bytes) (rest : List (Option Bytes))
    → Sends send
    → AllFilled segments
    → flatten segments ≡ contents
    → (calls : ℕ) × (send_file send contents ≡ some (calls, contents))
      × (receive_file (map some segments ++ some [] ∷ rest) ≡ some contents)
file_arrives_whole send contents segments rest works filled cut =
    let (calls, sent) = send_file_whole send contents works in
    (calls, sent, receive_file_whole segments rest filled ∙ ap some cut)

-- One of the first `n` attempts succeeds.
abbrev pub some_attempt : (ℕ → Bool) → ℕ → Bool
some_attempt attempt zero = false
some_attempt attempt (suc n) = some_attempt attempt n || attempt n

-- Eleven attempts are made to connect, and the request fails if and only if they all do.
pub connects_lem : (attempt : ℕ → Bool) → connects attempt ≡ some_attempt attempt 11
unfolding connects
connects_lem attempt = ground arith

exec_request_lem :
    (t : RequestType) (attempt : ℕ → Bool) (n : ℕ) (req : ClientRequest) (b : Bytes)
    → req.filename ≢ []
    → request_buffer t req.filename ≡ ok b
    → exec_request attempt (pos (suc n)) t req
      ≡ ok (if connects attempt then started req b else requeued req)
unfolding exec_request exec_obtain_file exec_push_file is_empty
exec_request_lem download_file attempt n req b named buffer = rw buffer (ground arith)
exec_request_lem push_file attempt n req b named buffer = rw buffer (ground arith)

-- A request that has a name, and whose header fits the buffer, is begun if one of the first eleven
-- attempts to connect succeeds and send() takes a part of the header: it leaves the queue, and the
-- header of its type and name is what is sent. If all eleven attempts fail it goes to the end of the
-- queue, behind the requests that wait, and nothing is sent.
pub handle_request_round_lem :
    (attempt : ℕ → Bool) (n : ℕ) (req : ClientRequest) (queue : List ClientRequest) (b : Bytes)
    → req.filename ≢ []
    → request_buffer req.req_type req.filename ≡ ok b
    → handle_request_round attempt (pos (suc n)) (req ∷ queue)
      ≡ ok (
          if some_attempt attempt 11
          then (queue, started req b)
          else (queue ++ req ∷ [], requeued req))
unfolding handle_request_round requeue
handle_request_round_lem attempt n req queue b named buffer =
    rw (exec_request_lem req.req_type attempt n req b named buffer, connects_lem attempt)
      (elim (Bool-cases (some_attempt attempt 11)) [
        | inl connected ↦ rw connected refl
        | inr failed ↦ rw failed refl
      ])
