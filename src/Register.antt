-- ===== src/Register.antt =====
-- The registration of peers: CRegisterServer (src/register_server.cpp), and the part of CPeerClient
-- (src/peer_client.cpp) that registers, reads the addresses of its neighbours and connects to them.
use p2p_file_sharing_system.Prelude.{
  ℕ, ◌+◌, ◌≡◌, Bool, true, false, ◌||◌, Option, none, some, List, [], ◌∷◌, ◌++◌, ◌==◌, leb,
  if◌then◌else◌, ℤ, pos, eq_ℤ, ltb_ℤ, length,
}
use p2p_file_sharing_system.Result.{
  Result, ok, fault, invalid_argument, signed_overflow, buffer_overflow, assert_failed, exited,
  or_fault, ◌>>=◌,
}
use p2p_file_sharing_system.Text.{Bytes, codes, newline, space, bytes_eq}
use p2p_file_sharing_system.Text.Number.{stoi, to_string}
use p2p_file_sharing_system.Text.Split.{split_string}
use p2p_file_sharing_system.Containers.{insert, contains}
use p2p_file_sharing_system.Ids.{PeerId, peer_id_key, delim, no_limit, get_peer_server_port}
use p2p_file_sharing_system.Peer.{Peer}
pub mod RoundTrip
pub mod Everyone
pub mod Stop
mod Tests

abbrev pub register_request : Bytes
register_request = codes "register_peer"

abbrev pub all_peers : Bytes
all_peers = codes "all_peers"

abbrev command_max_len : ℕ
command_max_len = 20

-- What stands before the first byte `c` and what stands behind it.
unfoldable pub cut : ℕ → Bytes → Option (Bytes × Bytes)
cut c [] = none
cut c (b ∷ s) =
    let rest : Option (Bytes × Bytes) = elim (cut c s) [
      | none ↦ none
      | some (before, behind) ↦ some (b ∷ before, behind)
    ] in
    if b == c then some ([], s) else rest

unfoldable pub parts_or_whole : Bytes → Option (Bytes × Bytes) → Bytes × Bytes
parts_or_whole s none = (s, s)
parts_or_whole s (some parts) = parts

-- substr(0, pos) and substr(pos + 1), which are both the whole text where the byte is not found.
unfoldable pub cut_at : ℕ → Bytes → Bytes × Bytes
unfolding parts_or_whole
cut_at c s = parts_or_whole s (cut c s)

-- The request of Register.
unfoldable pub create_register_message : PeerId → Bytes
create_register_message peer_id = register_request ++ newline ∷ to_string peer_id

unfoldable pub number_or_zero : Result ℤ → Result ℤ
number_or_zero (ok z) = ok z
number_or_zero (fault invalid_argument) = ok (pos 0)
number_or_zero (fault e) = fault signed_overflow

-- atoi: a text without a number is 0.
unfoldable pub atoi : Bytes → Result ℤ
unfolding number_or_zero
atoi s = number_or_zero (stoi s)

-- The members of CRegisterServer; an entry of `client_info` is a peer's id with its address.
pub record RegisterServer : Type 0 where
  pub num_of_peers : ℤ
  pub all_peers_registered : Bool
  pub client_info : List (PeerId × Bytes)
  pub thread_exit_count : ℕ

-- The entry of a peer, and whether it is the last that was missing.
unfoldable pub enter : Bytes → Bytes → RegisterServer → Result RegisterServer
enter body ip s = do
  peer_id ← atoi body
  let clients = insert peer_id ip s.client_info
  ok (record s {
    client_info = clients;
    all_peers_registered = eq_ℤ (pos (length clients)) s.num_of_peers || s.all_peers_registered;
  })

-- DealWithRequest up to the wait for the other peers. `ip` is the address of the socket.
unfoldable pub register : Bytes → Bytes → RegisterServer → Result RegisterServer
unfolding cut enter
register message ip s = do
  (command, body) ← or_fault (cut newline message) assert_failed
  if leb command_max_len (length command)
      then fault buffer_overflow
      else if bytes_eq command register_request
      then enter body ip s
      else fault assert_failed

-- The lines of the response, as the map is walked.
unfoldable pub response_lines : List (PeerId × Bytes) → Bytes
response_lines [] = []
response_lines ((id, ip) ∷ clients) =
    ((to_string id ++ space ∷ []) ++ ip) ++ newline ∷ response_lines clients

-- SendResponse of src/tcp_server.cpp on it.
unfoldable pub all_peers_response : List (PeerId × Bytes) → Bytes
unfolding response_lines
all_peers_response clients = all_peers ++ newline ∷ response_lines clients

-- DealWithRequest from the end of the wait on; `none` while it waits.
unfoldable pub respond : RegisterServer → Option (Bytes × RegisterServer)
respond s =
    if s.all_peers_registered
    then some
        (all_peers_response s.client_info, record s { thread_exit_count = s.thread_exit_count + 1 })
    else none

-- IsKeepRunning, which the loops of CTcpServer ask whether to go on.
unfoldable pub is_keep_running : RegisterServer → Bool
is_keep_running s = ltb_ℤ (pos s.thread_exit_count) s.num_of_peers

-- A line of the response is taken if it is about a neighbour or about the peer itself.
unfoldable pub take_line : PeerId → Bytes → Peer → Peer
take_line id ip s =
    if contains id s.peer_id_to_ip || eq_ℤ id s.peer_id
    then record s { peer_id_to_ip = insert id ip s.peer_id_to_ip }
    else s

unfoldable pub take_lines : List Bytes → Peer → Result Peer
unfolding cut_at take_line
take_lines [] s = ok s
take_lines (line ∷ lines) s =
    let (number, ip) = cut_at space line in
    stoi number >>= λ id. take_lines lines (take_line id ip s)

-- ConnectToPeers. `connect id ip port` is the socket, or `none` where no connection is made, on which
-- the process exits.
unfoldable pub connect_to_peers :
    (PeerId → Bytes → ℤ → Option ℕ) → List (PeerId × Bytes) → Peer → Result Peer
connect_to_peers connect [] s = ok s
connect_to_peers connect ((id, ip) ∷ rest) s =
    let skipped = connect_to_peers connect rest s in
    let connected = do
      port ← get_peer_server_port id
      fd ← or_fault (connect id ip port) exited
      connect_to_peers connect rest
          (record s { peer_id_to_sockfd = insert id fd s.peer_id_to_sockfd })
    in if eq_ℤ id s.peer_id then skipped else connected

unfoldable pub handle_register_response :
    (PeerId → Bytes → ℤ → Option ℕ) → Bytes → Peer → Result Peer
unfolding cut_at take_lines connect_to_peers
handle_register_response connect message s =
    let (response_type, actual) = cut_at newline message in
    if bytes_eq response_type all_peers
    then take_lines (split_string actual delim no_limit) s
      >>= (λ t. connect_to_peers connect t.peer_id_to_ip t)
    else ok s
