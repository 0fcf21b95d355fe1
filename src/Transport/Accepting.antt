-- ===== src/Transport/Accepting.antt =====
-- CTcpServer::StartAccepting of src/tcp_server.cpp and the sockets of CPeerFileServer::Run
-- (src/peer_file_server.cpp): what the calls of the system return is a parameter. The thread
-- is given a pointer to `client_addr`, whose lifetime is not modelled.
use p2p_file_sharing_system.Prelude.{
  Bool, false, List, [], ◌∷◌, ◌++◌, if◌then◌else◌, ℤ, pos, negsuc, eq_ℤ, ltb_ℤ,
}
use p2p_file_sharing_system.Result.{Result, ok, fault, exited, ◌>>=◌}
use p2p_file_sharing_system.Text.{Bytes}
use p2p_file_sharing_system.Disk.{Disk, make_folder}
use p2p_file_sharing_system.Exchange.{peer_file_dir}

-- socket(), bind() and listen() of StartAccepting; -1 ends the process.
unfoldable pub start_listening : ℤ → ℤ → ℤ → Result ℤ
start_listening server_sockfd bound listening =
    if eq_ℤ server_sockfd (negsuc 0)
    then fault exited
    else if eq_ℤ bound (negsuc 0)
    then fault exited
    else if eq_ℤ listening (negsuc 0)
    then fault exited
    else ok server_sockfd

-- The shared folder is made where there is none, and then socket(), setsockopt() of both buffers, bind()
-- and listen() are called.
unfoldable pub open_file_server : Disk → ℤ → ℤ → ℤ → ℤ → ℤ → Result (Disk × ℤ)
open_file_server disk socket_fd send_buffer receive_buffer bound listening = do
  made ← make_folder disk peer_file_dir
  if ltb_ℤ socket_fd (pos 0)
      then fault exited
      else if ltb_ℤ send_buffer (pos 0)
      then fault exited
      else if ltb_ℤ receive_buffer (pos 0)
      then fault exited
      else if ltb_ℤ bound (pos 0)
      then fault exited
      else if eq_ℤ listening (negsuc 0)
      then fault exited
      else ok (made, socket_fd)

-- `started` are the sockets that threads of HandleRequest were started with, and `closed` those that were
-- closed at once; `client_addr` is what accept() wrote last.
pub record Acceptor : Type 0 where
  pub client_addr : Bytes
  pub started : List ℤ
  pub closed : List ℤ
  pub accepting : Bool

-- accept() has returned: the process ends, the loop ends, or a thread is started. `keep_running` is what
-- IsKeepRunning returns.
unfoldable pub accept_round : Bool → ℤ → Bytes → Acceptor → Result Acceptor
accept_round keep_running client_sockfd address s =
    if eq_ℤ client_sockfd (negsuc 0)
    then fault exited
    else if keep_running
    then ok (record s { client_addr = address; started = s.started ++ client_sockfd ∷ [] })
    else ok
        (record s { client_addr = address; closed = client_sockfd ∷ s.closed; accepting = false })
