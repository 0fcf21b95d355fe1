-- ===== src/Config.antt =====
-- The configuration of a peer: LoadSettings and LoadTopology of src/peer_client.cpp. A file is the
-- lines that std::getline reads from it, or `none` where it does not open.
use p2p_file_sharing_system.Prelude.{
  ℕ, ◌≡◌, Bool, true, false, Option, none, some, List, [], ◌∷◌, ◌++◌, leb, length, if◌then◌else◌,
  not, ℤ, eq_ℤ, pos,
}
use p2p_file_sharing_system.Result.{Result, ok, fault, exited, assert_failed, guard, ◌>>=◌, ◌>>◌}
use p2p_file_sharing_system.Text.{Bytes, codes, bytes_eq, space}
use p2p_file_sharing_system.Text.Number.{stoi, is_number}
use p2p_file_sharing_system.Text.Split.{split_string}
use p2p_file_sharing_system.Containers.{insert}
use p2p_file_sharing_system.Ids.{PeerId, peer_id_key, no_limit}
use p2p_file_sharing_system.Peer.{Peer, at}
use p2p_file_sharing_system.Register.{cut_at}
pub mod Neighbours
mod Tests

-- One line of settings.config, split: its first part says which member it sets.
unfoldable pub load_setting : List Bytes → Bytes → Peer → Result Peer
load_setting vec key s =
    if bytes_eq key (codes "replication_factor")
    then (at vec 1 >>= λ v. stoi v >>= λ n. ok (record s { replication_factor = n }))
    else if bytes_eq key (codes "server_ip")
    then (at vec 1 >>= λ v. ok (record s { register_server_ip = v }))
    else if bytes_eq key (codes "ensure_query_hit_file")
    then (at vec 1 >>= λ v. ok (record s { ensure_queryhit_file = v }))
    else if bytes_eq key (codes "large_file_transfer")
    then (at vec 1 >>= λ v. ok (record s { large_file_name = v }))
    else ok s

unfoldable pub load_setting_lines : List Bytes → Peer → Result Peer
unfolding load_setting
load_setting_lines [] s = ok s
load_setting_lines (line ∷ lines) s =
    let vec = split_string line (space ∷ []) no_limit in
    at vec 0 >>= λ key. load_setting vec key s >>= load_setting_lines lines

unfoldable pub load_settings : Option (List Bytes) → Peer → Result Peer
unfolding load_setting_lines
load_settings none s = fault exited
load_settings (some lines) s = load_setting_lines lines s

-- The neighbours of a line: what is not a number is passed over.
unfoldable pub add_neighbours : List Bytes → Peer → Result Peer
add_neighbours [] s = ok s
add_neighbours (part ∷ parts) s =
    let rest = add_neighbours parts s in
    let added = stoi part >>= λ id.
    add_neighbours parts (record s { peer_id_to_ip = insert id [] s.peer_id_to_ip }) in
    if is_number part then added else rest

-- The lines up to the peer's own.
unfoldable pub load_topology_lines : List Bytes → Peer → Result Peer
unfolding add_neighbours
load_topology_lines [] s = ok s
load_topology_lines (line ∷ lines) s =
    let (number, peer_list) = cut_at b':' line in
    let later = load_topology_lines lines s in
    stoi number >>= λ id.
    if eq_ℤ id s.peer_id
    then add_neighbours (split_string peer_list (space ∷ []) no_limit) s
    else later

unfoldable pub some_neighbour : Peer → Result Peer
some_neighbour s = guard (leb 1 (length s.peer_id_to_ip)) assert_failed >> ok s

unfoldable pub load_topology : Option (List Bytes) → Peer → Result Peer
unfolding load_topology_lines some_neighbour
load_topology none s = some_neighbour s
load_topology (some lines) s = load_topology_lines lines s >>= some_neighbour
