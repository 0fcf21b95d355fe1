-- ===== src/Startup.antt =====
-- The start of a peer: CPeerClient::Run (src/peer_client.cpp) up to its threads. What the files, the
-- directory, the register server and the connections give are arguments.
use p2p_file_sharing_system.Prelude.{
  ℕ, Bool, not, Option, List, [], ◌∷◌, ℤ, pos, eq_ℤ, if◌then◌else◌, take,
}
use p2p_file_sharing_system.Result.{
  Result, ok, fault, exited, assert_failed, null_pointer, guard, or_fault, ◌>>=◌,
}
use p2p_file_sharing_system.Text.{Bytes, codes}
use p2p_file_sharing_system.Ids.{PeerId, msg_buf_size}
use p2p_file_sharing_system.Buffer.{fill_buffer, c_string}
use p2p_file_sharing_system.Transport.{is_error}
use p2p_file_sharing_system.Peer.{Peer}
use p2p_file_sharing_system.Peer.Threads.{load_file_info}
use p2p_file_sharing_system.Register.{atoi, handle_register_response}
use p2p_file_sharing_system.Config.{load_settings, load_topology}
pub mod Sockets
pub mod Kept
pub mod Response
pub mod Ready
mod Tests

-- What Register meets: whether connect() succeeds, what send() returns, and the bytes that have come
-- when recv() is called, or an error.
pub record Registration : Type 0 where
  pub connected : Bool
  pub sent : ℤ
  pub arrived : Option Bytes

-- Register, behind the message that it sends: one recv(), of at most MSG_BUF_SIZE bytes, into a buffer of
-- that size that is zero.
unfoldable pub register_with : (PeerId → Bytes → ℤ → Option ℕ) → Registration → Peer → Result Peer
register_with connect meeting s = do
  _ ← guard meeting.connected exited
  _ ← guard (not (is_error meeting.sent)) exited
  arrived ← or_fault meeting.arrived exited
  buffer ← fill_buffer (take msg_buf_size arrived)
  response ← c_string buffer
  handle_register_response connect response s

-- The arguments of the program in src/peer_exe.cpp behind its name: the topology and the peer. The count
-- that is tested is one too small, so that argv[2] may be a null pointer.
unfoldable pub read_arguments : List Bytes → Result (ℤ × PeerId)
read_arguments [] = fault exited
read_arguments (topology ∷ []) = do _ ← atoi topology; fault null_pointer
read_arguments (topology ∷ peer ∷ rest) = do
  topology_type ← atoi topology
  peer_id ← atoi peer
  ok (topology_type, peer_id)

abbrev pub settings_file : Bytes
settings_file = codes "settings.config"

-- The file that LoadTopology reads, by the number of the ETopologyType.
unfoldable pub topology_file_name : ℤ → Result Bytes
topology_file_name topology_type =
    if eq_ℤ topology_type (pos 0)
    then ok (codes "top_test.config")
    else if eq_ℤ topology_type (pos 1)
    then ok (codes "top_star.config")
    else if eq_ℤ topology_type (pos 2)
    then ok (codes "top_mesh_2d.config")
    else fault assert_failed

-- The lines of a file by its name, the entries of the shared directory, and what Register meets.
pub record Surroundings : Type 0 where
  pub lines_of : Bytes → Option (List Bytes)
  pub shared : List (Bool × Bytes)
  pub registration : Registration

unfoldable pub run_start : (PeerId → Bytes → ℤ → Option ℕ) → Surroundings → ℤ → Peer → Result Peer
unfolding register_with topology_file_name
run_start connect around topology_type s = do
  configured ← load_settings (around.lines_of settings_file) s
  name ← topology_file_name topology_type
  neighboured ← load_topology (around.lines_of name) (load_file_info around.shared configured)
  register_with connect around.registration neighboured
