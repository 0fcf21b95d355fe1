-- ===== src/Exchange.antt =====
-- The two ends of a connection between file client and file server, with their disks:
-- CPeerFileServer::HandleClient, SendFile and ReceiveFile (src/peer_file_server.cpp), and
-- CPeerFileClient::HandleObtainResponse and HandlePushResponse (src/peer_file_client.cpp).
use p2p_file_sharing_system.Prelude.{
  ℕ, ◌+◌, Bool, true, false, Option, none, some, List, [], ◌∷◌, ◌++◌, ltb, if◌then◌else◌, ℤ, pos,
  eq_ℤ, pos_part, take,
}
use p2p_file_sharing_system.Result.{Result, ok, fault, signed_overflow, ◌>>=◌}
use p2p_file_sharing_system.Text.{Bytes, codes}
use p2p_file_sharing_system.Text.Number.{to_string}
use p2p_file_sharing_system.Ids.{PeerId, add_port}
use p2p_file_sharing_system.FileTransfer.{send_file, receive_file, parse_request}
use p2p_file_sharing_system.Disk.{Disk, read_file, write_file, make_folder}
pub mod Paths
pub mod Folders
pub mod Storing
pub mod Download
pub mod Push
mod Tests

-- PEER_FILE_DIR
abbrev pub peer_file_dir : Bytes
peer_file_dir = codes "./shared_files"

-- filePath of SendFile and HandlePushResponse; what c_str() of a path leaves out is left out in Disk.
abbrev pub file_path : Bytes → Bytes
file_path filename = peer_file_dir ++ codes "/" ++ filename

-- receive_dir, less the slash at its end, which opendir and mkdir do not heed
abbrev pub receive_folder : PeerId → Bytes
receive_folder peer_id = peer_file_dir ++ codes "/received" ++ to_string peer_id

abbrev pub receive_dir : PeerId → Bytes
receive_dir peer_id = receive_folder peer_id ++ codes "/"

-- out_file_path of ReceiveFile, and of HandleObtainResponse
abbrev pub pushed_path : PeerId → Bytes → Bytes
pushed_path peer_id filename = receive_dir peer_id ++ codes "/" ++ filename

abbrev pub obtained_path : PeerId → ℕ → Bytes → Bytes
obtained_path peer_id obtain_num filename =
    receive_dir peer_id ++ to_string (pos obtain_num) ++ codes "_" ++ filename

-- What a request has done on the side of the server: its disk, the bytes it sent, whether
-- SetFileInfoDirty was called, and how often the socket was closed.
pub record Served : Type 0 where
  pub disk : Disk
  pub sent : Bytes
  pub dirty : Bool
  pub closes : ℕ

-- SendFile. `none` means that the fuel of the loop ran out.
unfoldable pub send_shared_file : (ℕ → ℕ → ℤ) → Disk → Bytes → Option Served
unfolding read_file send_file
send_shared_file send disk filename = elim (read_file disk (file_path filename)) [
  | none ↦ some (record { disk = disk; sent = []; dirty = false; closes = 0 })
  | some contents ↦ elim (send_file send contents) [
    | none ↦ none
    | some (calls, sent) ↦ some (record { disk = disk; sent = sent; dirty = false; closes = 0 })
  ]
]

-- A file that std::ofstream truncates.
abbrev pub truncated : Bytes → Bytes → Bytes
truncated contents old = contents

-- A file that std::ofstream appends to.
abbrev pub appended : Bytes → Bytes → Bytes
appended contents old = old ++ contents

-- ReceiveFile; two of the bytes of "start" are sent to let the client begin. `received` is what recv
-- returned, one result after another; `none` means that the thread waits for more.
unfoldable pub receive_pushed_file :
    (ℕ → ℕ → ℤ) → PeerId → List (Option Bytes) → Disk → Bytes → Result (Option Served)
unfolding make_folder write_file receive_file
receive_pushed_file send peer_id received disk filename =
    make_folder disk (receive_folder peer_id) >>= λ made. ok (elim (receive_file received) [
      | none ↦ none
      | some contents ↦ some (record {
        disk = write_file (truncated contents) made (pushed_path peer_id filename);
        sent = take (pos_part (send 0 2)) (codes "st");
        dirty = true;
        closes = 1;
      })
    ])

-- `close(client_sockfd)` at the end of HandleClient.
abbrev pub closed : Option Served → Option Served
closed none = none
closed (some s) = some (record s { closes = s.closes + 1 })

-- HandleClient, where `first` is what the first recv returned, or an error.
unfoldable pub handle_client :
    (ℕ → ℕ → ℤ) → PeerId → Option Bytes → List (Option Bytes) → Disk → Result (Option Served)
unfolding parse_request send_shared_file receive_pushed_file
handle_client send peer_id none received disk =
    ok (some (record { disk = disk; sent = []; dirty = false; closes = 1 }))
handle_client send peer_id (some first) received disk = do
  (request_type, filename) ← parse_request first
  served ←
      if eq_ℤ request_type (pos 0)
      then ok (send_shared_file send disk filename)
      else if eq_ℤ request_type (pos 1)
      then receive_pushed_file send peer_id received disk filename
      else ok (some (record { disk = disk; sent = []; dirty = false; closes = 0 }))
  ok (closed served)

-- CPeerFileClient between two requests: its disk, m_obtain_num, and whether SetFileInfoDirty was called.
pub record FileClient : Type 0 where
  pub peer_id : PeerId
  pub obtain_num : ℕ
  pub disk : Disk
  pub dirty : Bool

-- HandleObtainResponse; m_obtain_num is an int.
unfoldable pub handle_obtain_response :
    List (Option Bytes) → Bytes → FileClient → Result (Option FileClient)
unfolding make_folder write_file receive_file add_port
handle_obtain_response received filename c = do
  made ← make_folder c.disk (receive_folder c.peer_id)
  _ ← add_port 1 (pos c.obtain_num)
  ok (elim (receive_file received) [
    | none ↦ none
    | some contents ↦ some (record c {
      obtain_num = c.obtain_num + 1;
      disk = write_file (appended contents) made (obtained_path c.peer_id c.obtain_num filename);
      dirty = true;
    })
  ])

-- What HandlePushResponse sent, once the server had answered, and how often it closed the socket.
pub record Pushed : Type 0 where
  pub sent : Bytes
  pub closes : ℕ

unfoldable pub handle_push_response : (ℕ → ℕ → ℤ) → Bytes → Disk → Option Pushed
unfolding read_file send_file
handle_push_response send filename disk = elim (read_file disk (file_path filename)) [
  | none ↦ some (record { sent = []; closes = 0 })
  | some contents ↦ elim (send_file send contents) [
    | none ↦ none
    | some (calls, sent) ↦ some (record { sent = sent; closes = 1 })
  ]
]
